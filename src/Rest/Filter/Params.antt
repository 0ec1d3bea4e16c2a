-- ===== src/Rest/Filter/Params.antt =====
-- pkg/rest/filter.go: the bind parameters of a filter, and a list of them by the tree alone.
use mathlib.Core.List.{append-nil, append_assoc}
use mathlib.Core.Path.{subst}
use pigo.Base.{
  ◌≡◌, sym, ◌∙◌, ap, Option, none, some, List, [], ◌∷◌, ◌++◌, map, arith, is_empty, if◌then◌else◌,
}
use pigo.Base.Bytes.{Bytes, codes, ◌==◌, lookup}
use pigo.Base.Json.{text}
use pigo.Pgx.Schema.{Table, Column}
use pigo.Rest.Args.{Arg, value, int, Args, add, find_column}
use pigo.Rest.Arrays.{pg_array_literal}
use pigo.Rest.Error.{Result, ok, err, ◌>>=◌, no_column}
use pigo.Rest.Filter.{
  JsonPathStep, FilterField, Condition, FilterNode, group, condition, FilterNodes, nil, cons,
  fts_functions,
}
use pigo.Rest.Filter.Sql.{
  Env, step_sql, steps_sql, field_sql, text_search_sql, operator_sql, comparison_sql, condition_sql,
  bound_value, node_sql, nodes_sql,
}

abbrev pub step_param : JsonPathStep → Arg
step_param s = if s.is_index then int s.index else value (text s.key)

-- The parameters of a condition behind those of its path: none for `is`, one array for `in`, and
-- the text search configuration before the text.
abbrev pub operand_params : Env → Column → Condition → List Arg
operand_params env col c =
    if c.operator == codes "in"
    then value (text (pg_array_literal c.list)) ∷ []
    else if c.operator == codes "is"
    then []
    else if c.operator == codes "isdistinct"
    then value (text c.value) ∷ []
    else elim (lookup c.operator fts_functions) [
      | some tsquery ↦
          if is_empty c.lang
          then value (text c.value) ∷ []
          else value (text c.lang) ∷ value (text c.value) ∷ []
      | none ↦ value (text (bound_value env.unicode col c)) ∷ []
    ]

abbrev pub condition_params : Env → Table → Condition → List Arg
condition_params env table c = elim (find_column table c.field.column) [
  | none ↦ []
  | some col ↦ map step_param c.field.path ++ operand_params env col c
]

unfoldable mutual
  pub params : Env → Table → FilterNode → List Arg
  params env table (group negate logic ns) = params_of env table ns
  params env table (condition c) = condition_params env table c

  pub params_of : Env → Table → FilterNodes → List Arg
  params_of env table nil = []
  params_of env table (cons n ns) = params env table n ++ params_of env table ns

step-params : (s : JsonPathStep) (args : Args) → (step_sql s args).1 ≡ args ++ (step_param s ∷ [])
unfolding step_sql add
step-params s args = ground arith

pub steps-params :
    (path : List JsonPathStep) (args : Args) → (steps_sql path args).1 ≡ args ++ map step_param path
unfolding steps_sql step_sql add
steps-params [] args = sym (append-nil args)
steps-params (s ∷ path) args =
    steps-params path (step_sql s args).1
    ∙ (ap (λ xs. xs ++ map step_param path) (step-params s args)
        ∙ append_assoc args (step_param s ∷ []) (map step_param path))

field-params :
    (env : Env) (col : Column) (f : FilterField) (args : Args)
    → (field_sql env col f args).1 ≡ args ++ map step_param f.path
unfolding field_sql
field-params env col f args = ground (arith, steps-params f.path args, append-nil args)

pub comparison-params :
    (env : Env) (col : Column) (c : Condition) (lhs : Bytes) (args : Args)
    → (comparison_sql env col c lhs args).1 ≡ args ++ operand_params env col c
unfolding comparison_sql text_search_sql operator_sql add
comparison-params env col c lhs args = ground (
  arith,
  append-nil args,
  append_assoc args (value (text c.lang) ∷ []) (value (text c.value) ∷ []),
)

-- A renderer that succeeds leaves `xs` behind the parameters it was given.
abbrev pub Appends : {A : Type 0} → Result (A × Args) → Args → List Arg → Type 0
Appends (ok (x, args')) args xs = args' ≡ args ++ xs
Appends (err e) args xs = Unit {0}

module _ {A B : Type 0} where
  pub Appends-bind :
      (r : Result (A × Args)) (f : A × Args → Result (B × Args)) (args xs ys : List Arg)
      → Appends r args xs
      → ((x : A) (args' : Args) → Appends (f (x, args')) args' ys)
      → Appends (r >>= f) args (xs ++ ys)
  Appends-bind (err e) f args xs ys h k = tt
  Appends-bind (ok (x, mid)) f args xs ys h k = go (f (x, mid)) (k x mid)
    where
      go : (s : Result (B × Args)) → Appends s mid ys → Appends s args (xs ++ ys)
      go (err e) i = tt
      go (ok (y, args')) i = i ∙ (ap (λ v. v ++ ys) h ∙ append_assoc args xs ys)

  pub Appends-map :
      (r : Result (A × Args)) (f : A → B) (args xs : List Arg)
      → Appends r args xs
      → Appends (r >>= (λ p. ok (f p.0, p.1))) args xs
  Appends-map (err e) f args xs h = h
  Appends-map (ok x) f args xs h = h

condition-Appends :
    (env : Env) (table : Table) (c : Condition) (args : Args)
    → Appends (condition_sql env table c args) args (condition_params env table c)
unfolding condition_sql
condition-Appends env table c args = go (find_column table c.field.column)
  where
    go :
        (o : Option Column)
        → Appends
            (elim o as (λ _. Result (Bytes × Args)) [
              | none ↦ err (no_column table.name c.field.column)
              | some col ↦
                  let (lhs, args') = field_sql env col c.field args in
                  ok (comparison_sql env col c lhs args')
            ])
            args
            (elim o as (λ _. List Arg) [
              | none ↦ []
              | some col ↦ map step_param c.field.path ++ operand_params env col c
            ])
    go none = tt
    go (some col) =
        comparison-params env col c (field_sql env col c.field args).0
          (field_sql env col c.field args).1
        ∙ (ap (λ v. v ++ operand_params env col c) (field-params env col c.field args)
            ∙ append_assoc args (map step_param c.field.path) (operand_params env col c))

mutual
  unfolding node_sql params

  node-Appends :
      (env : Env) (table : Table) (n : FilterNode) (args : Args)
      → Appends (node_sql env table n args) args (params env table n)
  node-Appends env table (group negate logic ns) args =
      Appends-map (nodes_sql env table ns args) _ args _ (nodes-Appends env table ns args)
  node-Appends env table (condition c) args =
      Appends-map (condition_sql env table c args) _ args _ (condition-Appends env table c args)

  pub nodes-Appends :
      (env : Env) (table : Table) (ns : FilterNodes) (args : Args)
      → Appends (nodes_sql env table ns args) args (params_of env table ns)
  nodes-Appends env table nil args = sym (append-nil args)
  nodes-Appends env table (cons n ns) args =
      Appends-bind (node_sql env table n args) _ args (params env table n) (params_of env table ns)
        (node-Appends env table n args)
        λ x mid.
          Appends-map (nodes_sql env table ns mid) (λ parts. x ∷ parts) mid _
            (nodes-Appends env table ns mid)

-- A filter that renders appends these parameters to those it is given.
pub params_of_node :
    (env : Env) (table : Table) (n : FilterNode) (args : Args) (sql : Bytes) (args' : Args)
    → node_sql env table n args ≡ ok (sql, args')
    → args' ≡ args ++ params env table n
params_of_node env table n args sql args' h =
    subst (λ r. Appends r args (params env table n)) h (node-Appends env table n args)
