-- ===== src/Rest/Filter/Known.antt =====
-- pkg/rest/filter.go: when a filter is rendered.
use pigo.Rest.Filter.Total.{Ends, IsFilter, parse_filter_total}
use pigo.Rest.Filter.{RawFilter}
use pigo.Rest.Filter.Parse.{parse_filter}
use pigo.Base.{
  length, suc, ◌∷◌, ◌≡◌, refl, ap, ◌∙◌, Bool, true, false, ◌&&◌, Option, none, some, List, [],
  arith, is_some,
}
use pigo.Base.Bytes.{Bytes}
use pigo.Pgx.Schema.{Table, Column}
use pigo.Rest.Args.{Args, find_column}
use pigo.Rest.Error.{Result, ok, err, no_column, ◌>>=◌}
use pigo.Rest.Filter.{Condition, FilterNode, group, condition, FilterNodes, nil, cons}
use pigo.Rest.Filter.Sql.{
  Env, comparison_sql, field_sql, condition_sql, node_sql, nodes_sql, where_conditions,
}

abbrev pub succeeds {ℓ} : {A : Type ℓ} → Result A → Bool
succeeds (ok x) = true
succeeds (err e) = false

-- the table has every column that the filter names
unfoldable mutual
  pub has_columns : Table → FilterNode → Bool
  has_columns table (group negate logic ns) = have_columns table ns
  has_columns table (condition c) = is_some (find_column table c.field.column)

  pub have_columns : Table → FilterNodes → Bool
  have_columns table nil = true
  have_columns table (cons n ns) = has_columns table n && have_columns table ns

module _ {A B : Type 0} where
  succeeds-bind :
      (r : Result A) (f : A → Result B) (b : Bool)
      → ((x : A) → succeeds (f x) ≡ b)
      → succeeds (r >>= f) ≡ (succeeds r && b)
  succeeds-bind (ok x) f b h = h x
  succeeds-bind (err e) f b h = refl

  succeeds-map : (r : Result A) (f : A → B) → succeeds (r >>= λ x. ok (f x)) ≡ succeeds r
  succeeds-map (ok x) f = refl
  succeeds-map (err e) f = refl

condition-succeeds :
    (env : Env) (table : Table) (c : Condition) (args : Args)
    → succeeds (condition_sql env table c args) ≡ is_some (find_column table c.field.column)
unfolding condition_sql
condition-succeeds env table c args = ground arith

mutual
  unfolding node_sql has_columns

  node-succeeds :
      (env : Env) (table : Table) (n : FilterNode) (args : Args)
      → succeeds (node_sql env table n args) ≡ has_columns table n
  node-succeeds env table (group negate logic ns) args =
      succeeds-map (nodes_sql env table ns args) _ ∙ nodes-succeed env table ns args
  node-succeeds env table (condition c) args =
      succeeds-map (condition_sql env table c args) _ ∙ condition-succeeds env table c args

  nodes-succeed :
      (env : Env) (table : Table) (ns : FilterNodes) (args : Args)
      → succeeds (nodes_sql env table ns args) ≡ have_columns table ns
  nodes-succeed env table nil args = refl
  nodes-succeed env table (cons n ns) args =
      succeeds-bind (node_sql env table n args) _ (have_columns table ns)
        (λ x. succeeds-map (nodes_sql env table ns x.1) _ ∙ nodes-succeed env table ns x.1)
      ∙ ap (λ b. b && have_columns table ns) (node-succeeds env table n args)

-- A filter is rendered exactly where the table has every column that it names; nothing else of it,
-- and no parameter before it, can make the rendering fail.
pub rendered_with_columns :
    (env : Env) (table : Table) (n : FilterNode) (args : Args)
    → succeeds (node_sql env table n args) ≡ has_columns table n
rendered_with_columns = node-succeeds

module _ {A B : Type 0} (P : A → Type 0) (Q : B → Type 0) where
  Ends-bind :
      (r : Result A) (f : A → Result B)
      → Ends P r
      → ((x : A) → P x → Ends Q (f x))
      → Ends Q (r >>= f)
  Ends-bind (ok x) f h k = k x h
  Ends-bind (err e) f h k = h

condition-Ends :
    (env : Env) (table : Table) (c : Condition) (args : Args)
    → Ends (λ _. Unit {0}) (condition_sql env table c args)
unfolding condition_sql
condition-Ends env table c args = go (find_column table c.field.column)
  where
    go :
        (o : Option Column)
        → Ends
            (λ _. Unit {0})
            (elim o as (λ _. Result (Bytes × Args)) [
              | none ↦ err (no_column table.name c.field.column)
              | some col ↦
                  let (lhs, args') = field_sql env col c.field args in
                  ok (comparison_sql env col c lhs args')
            ])
    go none = tt
    go (some col) = tt

mutual
  unfolding node_sql

  node-Ends :
      (env : Env) (table : Table) (n : FilterNode) (args : Args)
      → Ends (λ _. Unit {0}) (node_sql env table n args)
  node-Ends env table (group negate logic ns) args =
      Ends-bind (λ _. Unit) (λ _. Unit) (nodes_sql env table ns args) _
        (nodes-Ends env table ns args) (λ _ _. tt)
  node-Ends env table (condition c) args =
      Ends-bind (λ _. Unit) (λ _. Unit) (condition_sql env table c args) _
        (condition-Ends env table c args) (λ _ _. tt)

  nodes-Ends :
      (env : Env) (table : Table) (ns : FilterNodes) (args : Args)
      → Ends (λ _. Unit {0}) (nodes_sql env table ns args)
  nodes-Ends env table nil args = tt
  nodes-Ends env table (cons n ns) args =
      Ends-bind (λ _. Unit) (λ _. Unit) (node_sql env table n args) _ (node-Ends env table n args)
        λ x _.
          Ends-bind (λ _. Unit) (λ _. Unit) (nodes_sql env table ns x.1) _
            (nodes-Ends env table ns x.1) (λ _ _. tt)

conditions-Ends :
    (env : Env) (table : Table) (filters : List RawFilter) (args : Args)
    → Ends (λ p. length p.0 ≡ length filters) (where_conditions env table filters args)
unfolding where_conditions
conditions-Ends env table [] args = refl
conditions-Ends env table (f ∷ filters) args =
    Ends-bind IsFilter _ (parse_filter env.unicode f) _ (parse_filter_total env.unicode f) λ n _.
      Ends-bind (λ _. Unit) _ (node_sql env table n args) _ (node-Ends env table n args)
        λ p _.
          Ends-bind (λ q. length q.0 ≡ length filters) _ (where_conditions env table filters p.1) _
            (conditions-Ends env table filters p.1) (λ q k. ap suc k)

-- The loop of buildWhereClause ends for every list of filters, in one condition for each of them or
-- in an error of the program.
pub where_conditions_total :
    (env : Env) (table : Table) (filters : List RawFilter) (args : Args)
    → Ends (λ p. length p.0 ≡ length filters) (where_conditions env table filters args)
where_conditions_total = conditions-Ends
