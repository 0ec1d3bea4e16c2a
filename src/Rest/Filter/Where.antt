-- ===== src/Rest/Filter/Where.antt =====
-- pkg/rest/filter.go: the texts that buildWhereClause joins up.
use pigo.Base.{
  none, some, Option, ◌≡◌, refl, false, List, [], ◌∷◌, ◌++◌, arith, is_empty, ℕ, length, All, ap,
  suc,
}
use pigo.Base.Bytes.{Bytes, codes, join}
use pigo.Pgx.Schema.{Table, Column}
use pigo.Rest.Args.{Args, find_column}
use pigo.Rest.Error.{Result, ok, err, ◌>>=◌, no_column}
use pigo.Rest.Filter.{RawFilter, Condition, FilterNode, group, condition}
use pigo.Rest.Filter.Parse.{parse_filter}
use pigo.Rest.Filter.Sql.{
  Env, comparison_sql, text_search_sql, operator_sql, condition_sql, node_sql, where_conditions,
  build_where_clause, field_sql, nodes_sql,
}

-- What holds of the result, where there is one.
abbrev pub Given {ℓ} : {A : Type ℓ} → (A → Type 0) → Result A → Type 0
Given P (ok x) = P x
Given P (err e) = Unit {0}

pub Given-trivial {ℓ} : {A : Type ℓ} (r : Result A) → Given (λ _. Unit {0}) r
Given-trivial (ok x) = tt
Given-trivial (err e) = tt

-- a result is itself
pub Given-self : {A : Type 0} (r : Result A) → Given (λ x. r ≡ ok x) r
Given-self (ok x) = refl
Given-self (err e) = tt

pub Given-both :
    {A : Type 0} (P Q : A → Type 0) (r : Result A)
    → Given P r
    → Given Q r
    → Given (λ x. P x × Q x) r
Given-both P Q (ok x) h k = (h, k)
Given-both P Q (err e) h k = tt

module _ {A B : Type 0} where
  pub Given-bind :
      (P : A → Type 0) (Q : B → Type 0) (r : Result A) (f : A → Result B)
      → Given P r
      → ((x : A) → P x → Given Q (f x))
      → Given Q (r >>= f)
  Given-bind P Q (ok x) f h k = k x h
  Given-bind P Q (err e) f h k = tt

is_empty-behind : (s t : Bytes) (c : ℕ) → is_empty (s ++ c ∷ t) ≡ false
is_empty-behind [] t c = refl
is_empty-behind (d ∷ s) t c = refl

is_empty-prepend : (s t : Bytes) → is_empty s ≡ false → is_empty (s ++ t) ≡ false
is_empty-prepend [] t h = cc
is_empty-prepend (c ∷ s) t h = refl

text_search-text :
    (col : Column) (c : Condition) (tsquery lhs : Bytes) (args : Args)
    → is_empty (text_search_sql col c tsquery lhs args).0 ≡ false
unfolding text_search_sql
text_search-text col c tsquery lhs args = grind (arith, is_empty-behind)

comparison-text :
    (env : Env) (col : Column) (c : Condition) (lhs : Bytes) (args : Args)
    → is_empty (comparison_sql env col c lhs args).0 ≡ false
unfolding comparison_sql operator_sql
comparison-text env col c lhs args = grind (arith, is_empty-behind, text_search-text)

condition-text :
    (env : Env) (table : Table) (c : Condition) (args : Args)
    → Given (λ p. is_empty p.0 ≡ false) (condition_sql env table c args)
unfolding condition_sql
condition-text env table c args = go (find_column table c.field.column)
  where
    go :
        (o : Option Column)
        → Given
            (λ p. is_empty p.0 ≡ false)
            (elim o as (λ _. Result (Bytes × Args)) [
              | none ↦ err (no_column table.name c.field.column)
              | some col ↦
                  let (lhs, args') = field_sql env col c.field args in
                  ok (comparison_sql env col c lhs args')
            ])
    go none = tt
    go (some col) =
        comparison-text env col c (field_sql env col c.field args).0
          (field_sql env col c.field args).1

node-text :
    (env : Env) (table : Table) (n : FilterNode) (args : Args)
    → Given (λ p. is_empty p.0 ≡ false) (node_sql env table n args)
unfolding node_sql
node-text env table (group negate logic ns) args =
    Given-bind (λ _. Unit) (λ p. is_empty p.0 ≡ false) (nodes_sql env table ns args) _
      (Given-trivial (nodes_sql env table ns args)) (λ p _. ground arith)
node-text env table (condition c) args =
    Given-bind (λ p. is_empty p.0 ≡ false) (λ p. is_empty p.0 ≡ false)
      (condition_sql env table c args) _ (condition-text env table c args)
      (λ p h. ground (arith, h))

abbrev pub AllText : List Bytes → List RawFilter → Type 0
AllText conds filters = (length conds ≡ length filters) × (All (λ s. is_empty s ≡ false) conds)

conditions-AllText :
    (env : Env) (table : Table) (filters : List RawFilter) (args : Args)
    → Given (λ p. AllText p.0 filters) (where_conditions env table filters args)
unfolding where_conditions
conditions-AllText env table [] args = (refl, tt)
conditions-AllText env table (f ∷ filters) args =
    Given-bind (λ _. Unit) Goal (parse_filter env.unicode f) _
      (Given-trivial (parse_filter env.unicode f))
      λ n _.
        Given-bind (λ p. is_empty p.0 ≡ false) Goal (node_sql env table n args) _
          (node-text env table n args)
          λ p h.
            Given-bind (λ q. AllText q.0 filters) Goal (where_conditions env table filters p.1) _
              (conditions-AllText env table filters p.1) (λ q k. (ap suc k.0, (h, k.1)))
  where
    Goal : List Bytes × Args → Type 0
    Goal p = AllText p.0 (f ∷ filters)

join-text :
    (sep : Bytes) (conds : List Bytes) (filters : List RawFilter)
    → AllText conds filters
    → is_empty (join sep conds) ≡ is_empty filters
unfolding join
join-text sep [] [] h = refl
join-text sep [] (f ∷ filters) h = ground (arith, h.0)
join-text sep (s ∷ conds) [] h = ground (arith, h.0)
join-text sep (s ∷ []) (f ∷ filters) h = h.1.0
join-text sep (s ∷ t ∷ conds) (f ∷ filters) h =
    is_empty-prepend (s ++ sep) (join sep (t ∷ conds)) (is_empty-prepend s sep h.1.0)

-- The conditions of filters, behind some parameters: one for each filter, in the order of the filters,
-- which is what the tree of the filter renders to, with the parameters that this leaves.
pub data Rendered (env : Env) (table : Table)
    : List RawFilter → Args → List Bytes → Args → Type 0 where
  no_filters : (args : Args) → Rendered env table [] args [] args
  one_more :
      (f : RawFilter) (filters : List RawFilter) (node : FilterNode) (args mid args' : Args)
      (cond : Bytes) (conds : List Bytes)
      → parse_filter env.unicode f ≡ ok node
      → node_sql env table node args ≡ ok (cond, mid)
      → Rendered env table filters mid conds args'
      → Rendered env table (f ∷ filters) args (cond ∷ conds) args'

where_conditions-Rendered :
    (env : Env) (table : Table) (filters : List RawFilter) (args : Args)
    → Given (λ p. Rendered env table filters args p.0 p.1) (where_conditions env table filters args)
unfolding where_conditions
where_conditions-Rendered env table [] args = no_filters args
where_conditions-Rendered env table (f ∷ filters) args =
    Given-bind (λ node. parse_filter env.unicode f ≡ ok node) P (parse_filter env.unicode f) _
      (Given-self (parse_filter env.unicode f))
      λ node parsed.
        Given-bind (λ q. node_sql env table node args ≡ ok q) P (node_sql env table node args) _
          (Given-self (node_sql env table node args))
          λ q rendered.
            Given-bind (λ p. Rendered env table filters q.1 p.0 p.1) P
              (where_conditions env table filters q.1) _
              (where_conditions-Rendered env table filters q.1)
              λ p rest. one_more f filters node args q.1 p.1 q.0 p.0 parsed rendered rest
  where
    P : List Bytes × Args → Type 0
    P p = Rendered env table (f ∷ filters) args p.0 p.1

build_where_clause-text :
    (env : Env) (table : Table) (filters : List RawFilter) (args : Args)
    → Given (λ p. is_empty p.0 ≡ is_empty filters) (build_where_clause env table filters args)
unfolding build_where_clause
build_where_clause-text env table filters args =
    Given-bind (λ p. AllText p.0 filters) (λ p. is_empty p.0 ≡ is_empty filters)
      (where_conditions env table filters args) _ (conditions-AllText env table filters args)
      (λ p h. join-text (codes " AND ") p.0 filters h)

-- the clause that buildWhereClause gives for filters
abbrev pub IsClause : Env → Table → List RawFilter → Args → Bytes × Args → Type 0
IsClause env table filters args p =
    (conds : List Bytes) × Rendered env table filters args conds p.1
    × (p.0 ≡ join (codes " AND ") conds)

build_where_clause-IsClause :
    (env : Env) (table : Table) (filters : List RawFilter) (args : Args)
    → Given (IsClause env table filters args) (build_where_clause env table filters args)
unfolding build_where_clause
build_where_clause-IsClause env table filters args =
    Given-bind (λ p. Rendered env table filters args p.0 p.1) (IsClause env table filters args)
      (where_conditions env table filters args) _ (where_conditions-Rendered env table filters args)
      λ p h. (p.0, h, refl)

pub build_where_clause-Given :
    (env : Env) (table : Table) (filters : List RawFilter) (args : Args)
    → Given
        (λ p. IsClause env table filters args p × (is_empty p.0 ≡ is_empty filters))
        (build_where_clause env table filters args)
build_where_clause-Given env table filters args =
    Given-both (IsClause env table filters args) (λ p. is_empty p.0 ≡ is_empty filters)
      (build_where_clause env table filters args)
      (build_where_clause-IsClause env table filters args)
      (build_where_clause-text env table filters args)
