-- ===== src/Rest/Filter/Binding.antt =====
-- pkg/rest/filter.go: what the SQL text of a filter depends on.
use pigo.Base.{
  ℕ, ◌≡◌, refl, Option, none, some, List, [], ◌∷◌, map, arith, length, is_empty, if◌then◌else◌,
}
use pigo.Base.{ap₂, ◌++◌}
use pigo.Rest.Args.{value, int, find_column}
use pigo.Base.Json.{text}
use mathlib.Core.Path.{◌≡⟨◌⟩◌, ◌∎}
use pigo.Rest.Error.{◌>>=◌}
use pigo.Base.{sym, ap}
use pigo.Base.Int.{pos}
use pigo.Base.Bytes.{Bytes, codes, ◌==◌, lookup, join}
use pigo.Pgx.Schema.{Table, Column}
use pigo.Rest.Args.{Arg, Args, add, add-length}
use pigo.Rest.Error.{Result, ok, err, no_column}
use pigo.Rest.Filter.{
  JsonPathStep, FilterField, Condition, FilterNode, group, condition, FilterNodes, nil, cons,
  fts_functions,
}
use pigo.Rest.Filter.Sql.{
  Env, step_sql, steps_sql, field_sql, text_search_sql, operator_sql, comparison_sql, condition_sql,
  node_sql, nodes_sql, bound_value, add_text, negated, parens,
}
use pigo.Rest.Arrays.{pg_array_literal}

-- A filter with its values blanked: what is left is the columns, the operators and their
-- modifiers, the arrows of the paths, the keywords of `is` and the grouping.
unfoldable pub shape_step : JsonPathStep → JsonPathStep
shape_step s = record s { key = []; index = pos 0 }

unfoldable pub shape_field : FilterField → FilterField
shape_field f = record f { path = map shape_step f.path }

unfoldable pub shape_condition : Condition → Condition
shape_condition c = record c {
  field = shape_field c.field;
  lang = if is_empty c.lang then [] else codes "lang";
  value = if c.operator == codes "is" then c.value else [];
  list = [];
}

unfoldable mutual
  pub shape : FilterNode → FilterNode
  shape (group negate logic ns) = group negate logic (shapes ns)
  shape (condition c) = condition (shape_condition c)

  pub shapes : FilterNodes → FilterNodes
  shapes nil = nil
  shapes (cons n ns) = cons (shape n) (shapes ns)

is_empty-map {ℓ κ} :
    {A : Type ℓ} {B : Type κ} (f : A → B) (xs : List A) → is_empty (map f xs) ≡ is_empty xs
is_empty-map f [] = refl
is_empty-map f (x ∷ xs) = refl

-- the same text, and as many parameters
abbrev pub SameText {ℓ} : {A : Type ℓ} → A × Args → A × Args → Type ℓ
SameText x y = (x.0 ≡ y.0) × (length x.1 ≡ length y.1)

add-SameText : (v w : Arg) (a b : Args) → length a ≡ length b → SameText (add v a) (add w b)
unfolding add
add-SameText v w a b h = (rw h, omega (arith, add-length v a, add-length w b, h))

step-SameText :
    (s : JsonPathStep) (a b : Args)
    → length a ≡ length b
    → SameText (step_sql s a) (step_sql (shape_step s) b)
unfolding step_sql shape_step
step-SameText s a b h = ground (
  arith,
  add-SameText (int s.index) (int (pos 0)) a b h,
  add-SameText (value (text s.key)) (value (text [])) a b h,
)

steps-SameText :
    (path : List JsonPathStep) (a b : Args)
    → length a ≡ length b
    → SameText (steps_sql path a) (steps_sql (map shape_step path) b)
unfolding steps_sql
steps-SameText [] a b h = (refl, h)
steps-SameText (s ∷ path) a b h =
    let first = step-SameText s a b h in
    let rest = steps-SameText path (step_sql s a).1 (step_sql (shape_step s) b).1 first.1 in
    (ap₂ (λ x y. x ++ y) first.0 rest.0, rest.1)

field-SameText :
    (env : Env) (col : Column) (f : FilterField) (a b : Args)
    → length a ≡ length b
    → SameText (field_sql env col f a) (field_sql env col (shape_field f) b)
unfolding field_sql shape_field
field-SameText env col f a b h =
    ground (arith, steps-SameText f.path a b h, is_empty-map shape_step f.path)

operator-SameText :
    (env : Env) (col : Column) (c : Condition) (lhs : Bytes) (a b : Args)
    → length a ≡ length b
    → SameText (operator_sql env col c lhs a) (operator_sql env col (shape_condition c) lhs b)
unfolding operator_sql shape_condition
operator-SameText env col c lhs a b h = ground (
  arith,
  add-SameText (value (text (bound_value env.unicode col c)))
      (value (text (bound_value env.unicode col (shape_condition c)))) a b h,
)

text_search-SameText :
    (col : Column) (c : Condition) (tsquery lhs : Bytes) (a b : Args)
    → length a ≡ length b
    → SameText
        (text_search_sql col c tsquery lhs a)
        (text_search_sql col (shape_condition c) tsquery lhs b)
unfolding text_search_sql shape_condition shape_field
text_search-SameText col c tsquery lhs a b h =
    let first = add-SameText (value (text c.lang)) (value (text (codes "lang"))) a b h in
    ground (
      arith,
      first,
      add-SameText (value (text c.value)) (value (text (shape_condition c).value)) a b h,
      add-SameText (value (text c.value)) (value (text (shape_condition c).value))
          (add_text c.lang a).1 (add_text (codes "lang") b).1 first.1,
      is_empty-map shape_step c.field.path,
    )

other-SameText :
    (env : Env) (col : Column) (c : Condition) (lhs : Bytes) (a b : Args)
    → length a ≡ length b
    → (o : Option Bytes)
    → SameText
        (elim o as (λ _. Bytes × Args) [
          | some tsquery ↦ text_search_sql col c tsquery lhs a
          | none ↦ operator_sql env col c lhs a
        ])
        (elim o as (λ _. Bytes × Args) [
          | some tsquery ↦ text_search_sql col (shape_condition c) tsquery lhs b
          | none ↦ operator_sql env col (shape_condition c) lhs b
        ])
other-SameText env col c lhs a b h none = operator-SameText env col c lhs a b h
other-SameText env col c lhs a b h (some tsquery) = text_search-SameText col c tsquery lhs a b h

comparison-SameText :
    (env : Env) (col : Column) (c : Condition) (lhs : Bytes) (a b : Args)
    → length a ≡ length b
    → SameText (comparison_sql env col c lhs a) (comparison_sql env col (shape_condition c) lhs b)
unfolding comparison_sql shape_condition
comparison-SameText env col c lhs a b h = ground (
  arith,
  add-SameText (value (text (pg_array_literal c.list))) (value (text (pg_array_literal []))) a b h,
  add-SameText (value (text c.value)) (value (text (shape_condition c).value)) a b h,
  other-SameText env col c lhs a b h (lookup c.operator fts_functions),
)

-- The text of a rendered filter and the number of parameters; or the error.
abbrev pub outline : {A : Type 0} → Result (A × Args) → Result (A × ℕ)
outline (ok (x, args)) = ok (x, length args)
outline (err e) = err e

module _ {A B : Type 0} where
  outline-bind :
      (r s : Result (A × Args)) (f g : A × Args → Result (B × Args))
      → outline r ≡ outline s
      → ((x : A) (a b : Args) → length a ≡ length b → outline (f (x, a)) ≡ outline (g (x, b)))
      → outline (r >>= f) ≡ outline (s >>= g)
  outline-bind (ok (x, a)) (ok (y, b)) f g e k =
      let same : x ≡ y = cc in let count : length a ≡ length b = cc in rw (← same) (k x a b count)
  outline-bind (ok x) (err e') f g e k = cc
  outline-bind (err e') (ok y) f g e k = cc
  outline-bind (err e') (err e'') f g e k = let same : e' ≡ e'' = cc in cc

condition-outline :
    (env : Env) (table : Table) (c : Condition) (a b : Args)
    → length a ≡ length b
    → outline (condition_sql env table c a)
      ≡ outline (condition_sql env table (shape_condition c) b)
unfolding condition_sql shape_condition shape_field
condition-outline env table c a b h = go (find_column table c.field.column)
  where
    go :
        (o : Option Column)
        → outline (elim o as (λ _. Result (Bytes × Args)) [
          | none ↦ err (no_column table.name c.field.column)
          | some col ↦
              let (lhs, args') = field_sql env col c.field a in
              ok (comparison_sql env col c lhs args')
        ])
          ≡ outline (elim o as (λ _. Result (Bytes × Args)) [
            | none ↦ err (no_column table.name c.field.column)
            | some col ↦
                let (lhs, args') = field_sql env col (shape_field c.field) b in
                ok (comparison_sql env col (shape_condition c) lhs args')
          ])
    go none = refl
    go (some col) =
        let lhs = field-SameText env col c.field a b h in
        let all =
          comparison-SameText env col c (field_sql env col c.field a).0
            (field_sql env col c.field a).1 (field_sql env col (shape_field c.field) b).1 lhs.1 in
        rw (← lhs.0) (ap₂ (λ x y. ok (x, y)) all.0 all.1)

mutual
  unfolding node_sql shape shape_condition

  node-outline :
      (env : Env) (table : Table) (n : FilterNode) (a b : Args)
      → length a ≡ length b
      → outline (node_sql env table n a) ≡ outline (node_sql env table (shape n) b)
  node-outline env table (group negate logic ns) a b h =
      outline-bind (nodes_sql env table ns a) (nodes_sql env table (shapes ns) b) _ _
        (nodes-outline env table ns a b h)
        (λ x a' b' k.
          ap (λ n. ok (negated negate (parens (join (codes " " ++ logic ++ codes " ") x)), n)) k)
  node-outline env table (condition c) a b h =
      outline-bind (condition_sql env table c a) (condition_sql env table (shape_condition c) b) _ _
        (condition-outline env table c a b h)
        (λ x a' b' k. ap (λ n. ok (negated c.negate (if c.negate then parens x else x), n)) k)

  nodes-outline :
      (env : Env) (table : Table) (ns : FilterNodes) (a b : Args)
      → length a ≡ length b
      → outline (nodes_sql env table ns a) ≡ outline (nodes_sql env table (shapes ns) b)
  nodes-outline env table nil a b h = ap (λ n. ok ([], n)) h
  nodes-outline env table (cons n ns) a b h =
      outline-bind (node_sql env table n a) (node_sql env table (shape n) b) _ _
        (node-outline env table n a b h)
        λ x a' b' k.
          outline-bind (nodes_sql env table ns a') (nodes_sql env table (shapes ns) b') _ _
            (nodes-outline env table ns a' b' k) (λ xs a'' b'' k'. ap (λ n. ok (x ∷ xs, n)) k')

-- Two filters of one shape, which differ at most in the values, the lists, the search
-- configurations and the keys and indices of JSON paths that the client sent, are rendered as the
-- same SQL text with as many parameters, from as many earlier parameters; or both are refused alike.
pub sql_of_shape :
    (env : Env) (table : Table) (n m : FilterNode) (a b : Args)
    → shape n ≡ shape m
    → length a ≡ length b
    → outline (node_sql env table n a) ≡ outline (node_sql env table m b)
sql_of_shape env table n m a b h k =
    outline (node_sql env table n a)
    ≡⟨ node-outline env table n a a refl ⟩ outline (node_sql env table (shape n) a)
    ≡⟨ ap (λ s. outline (node_sql env table s a)) h ⟩ outline (node_sql env table (shape m) a)
    ≡⟨ sym (node-outline env table m b a (sym k)) ⟩ outline (node_sql env table m b) ∎
