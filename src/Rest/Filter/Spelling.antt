-- ===== src/Rest/Filter/Spelling.antt =====
-- pkg/rest/filter.go: the SQL text of a condition has every value in its place.
use mathlib.Core.Path.{subst}
use pigo.Base.{
  Option-cases, Bool-cases, if◌then◌else◌, is_empty, length, ℕ, zero, suc, ◌≡◌, refl, sym, inl, inr,
  Bool, true, false, not, ◌&&◌, ◌||◌, some, List, [], ◌∷◌, ◌++◌, map, get_elem?,
}
use pigo.Base.Bytes.{lookup, index_map, codes, ◌==◌, Bytes}
use pigo.Base.Json.{text}
use pigo.Pgx.Schema.{Table, Column}
use pigo.Rest.Args.{find_column, Args, value, placeholder, Arg, add, int}
use pigo.Rest.Arrays.{pg_array_literal}
use pigo.Rest.Error.{ok, Result, err}
use pigo.Rest.Filter.{sql_operators, is_values, fts_functions, Condition, JsonPathStep, FilterField}
use pigo.Rest.Filter.Params.{step_param, steps-params}
use pigo.Rest.Filter.Spelled.{
  condition_reading, comparison_reading, operator_reading, text_search_reading, nothing, said,
  Piece, literal, field_reading, path_reading, Spells, document_reading, step_reading, lang_reading,
  hole_for, parameter, behind,
}
use pigo.Rest.Filter.Sql.{
  condition_sql, bound_value, comparison_sql, operator_sql, add_text, text_search_sql, Env,
  tsvector_of, steps_sql, step_sql, field_sql,
}

get_elem?-behind :
    {A : Type 0} (xs ys : List A) (n : ℕ) (a : A)
    → get_elem? xs n ≡ some a
    → get_elem? (xs ++ ys) n ≡ some a
get_elem?-behind [] ys n a h = cc
get_elem?-behind (x ∷ xs) ys zero a h = h
get_elem?-behind (x ∷ xs) ys (suc n) a h = get_elem?-behind xs ys n a h

get_elem?-last : {A : Type 0} (xs : List A) (a : A) → get_elem? (xs ++ a ∷ []) (length xs) ≡ some a
get_elem?-last [] a = refl
get_elem?-last (x ∷ xs) a = get_elem?-last xs a

pub Spells-more :
    (args more : Args) (ps : List Piece) (s : Bytes) → Spells args ps s → Spells (args ++ more) ps s
Spells-more args more ps s nothing = nothing
Spells-more args more ps s (literal t) = literal t
Spells-more args more ps s (parameter n a h) = parameter n a (get_elem?-behind args more n a h)
Spells-more args more ps s (behind {ps = front} {qs = back} {s = t} {t = u} h k) =
    behind (Spells-more args more front t h) (Spells-more args more back u k)

add-Spells : (a : Arg) (args : Args) → Spells (add a args).1 (hole_for a) (add a args).0
unfolding add placeholder
add-Spells a args = parameter (length args) a (get_elem?-last args a)

step-Spells :
    (step : JsonPathStep) (args : Args)
    → Spells (step_sql step args).1 (step_reading step) (step_sql step args).0
unfolding step_sql
step-Spells step args = elim (Bool-cases step.is_index) [
  | inl e ↦ rw e (
      behind (behind (literal step.arrow) (add-Spells (int step.index) args))
        (literal (codes "::int")))
  | inr e ↦ rw e (
      behind (behind (literal step.arrow) (add-Spells (value (text step.key)) args))
        (literal (codes "::text")))
]

path-Spells :
    (path : List JsonPathStep) (args : Args)
    → Spells (steps_sql path args).1 (path_reading path) (steps_sql path args).0
unfolding steps_sql
path-Spells [] args = nothing
path-Spells (step ∷ path) args =
    let mid = (step_sql step args).1 in
    behind
      (subst (λ v. Spells v (step_reading step) (step_sql step args).0)
        (sym (steps-params path mid))
        (Spells-more mid (map step_param path) (step_reading step) (step_sql step args).0
          (step-Spells step args)))
      (path-Spells path mid)

json_column :
    (a b : Bool) (x y : Bytes) → (if not (not a && not b) then x else y) ≡ (if a || b then x else y)
json_column true b x y = refl
json_column false true x y = refl
json_column false false x y = refl

field-Spells :
    (env : Env) (col : Column) (f : FilterField) (args : Args)
    → Spells (field_sql env col f args).1 (field_reading env col f) (field_sql env col f args).0
unfolding field_sql
field-Spells env col f args = elim (Bool-cases (is_empty f.path)) [
  | inl e ↦ rw e (literal (env.quote_ident col.name))
  | inr e ↦ rw e (
      behind
        (behind
          (behind (literal (codes "(")) (
            subst (λ base. Spells (steps_sql f.path args).1 (said base) base_of)
              (json_column (col.data_type == codes "json") (col.data_type == codes "jsonb")
                (env.quote_ident col.name) converted)
              (literal base_of)))
          (path-Spells f.path args))
        (literal (codes ")")))
]
  where
    converted : Bytes
    converted = codes "to_jsonb(" ++ env.quote_ident col.name ++ codes ")"

    base_of : Bytes
    base_of =
        if not (not (col.data_type == codes "json") && not (col.data_type == codes "jsonb"))
        then env.quote_ident col.name
        else converted

document-Spells :
    (args : Args) (col : Column) (c : Condition) (langs ps : List Piece) (lhs lang : Bytes)
    → Spells args langs lang
    → Spells args ps lhs
    → Spells args (document_reading col c langs ps) (tsvector_of col c lang lhs)
document-Spells args col c langs ps lhs lang hl h =
    elim (Bool-cases (col.data_type == codes "tsvector" && is_empty c.field.path)) [
      | inl e ↦ rw e h
      | inr e ↦
          rw e
            (behind (behind (behind (literal (codes "to_tsvector(")) hl) h) (literal (codes ")")))
    ]

-- up to the operands of the query
query-Spells :
    (args : Args) (ps : List Piece) (s tsquery : Bytes)
    → Spells args ps s
    → Spells args
        (ps ++ said (codes " @@ ") ++ said tsquery ++ said (codes "("))
        (s ++ codes " @@ " ++ tsquery ++ codes "(")
query-Spells args ps s tsquery h =
    behind (behind (behind h (literal (codes " @@ "))) (literal tsquery)) (literal (codes "("))

-- what is spelled beside parameters is spelled beside one more
more_text :
    (t : Bytes) (args : Args) {ps : List Piece} {s : Bytes}
    → Spells args ps s
    → Spells (add_text t args).1 ps s
unfolding add
more_text t args {ps} {s} h = Spells-more args (value (text t) ∷ []) ps s h

text_search-Spells :
    (col : Column) (c : Condition) (tsquery lhs : Bytes) (args : Args) (ps : List Piece)
    → Spells args ps lhs
    → Spells
        (text_search_sql col c tsquery lhs args).1
        (text_search_reading col c tsquery ps)
        (text_search_sql col c tsquery lhs args).0
unfolding text_search_sql
text_search-Spells col c tsquery lhs args ps h = elim (Bool-cases (is_empty c.lang)) [
  | inl e ↦
      let final = (add_text c.value args).1 in
      let document = document-Spells final col c [] ps lhs [] nothing (more_text c.value args h) in
      rw e (
        behind
          (behind
            (query-Spells final (document_reading col c [] ps) (tsvector_of col c [] lhs) tsquery
              document)
            (add-Spells (value (text c.value)) args))
          (literal (codes ")")))
  | inr e ↦
      let mid = (add_text c.lang args).1 in
      let final = (add_text c.value mid).1 in
      let lang = (add_text c.lang args).0 ++ codes "::regconfig, " in
      let with_lang : Spells final (lang_reading c) lang =
        behind (more_text c.value mid (add-Spells (value (text c.lang)) args))
          (literal (codes "::regconfig, ")) in
      let document =
        document-Spells final col c (lang_reading c) ps lhs lang with_lang
          (more_text c.value mid (more_text c.lang args h)) in
      rw e (
        behind
          (behind
            (behind
              (query-Spells final (document_reading col c (lang_reading c) ps)
                (tsvector_of col c lang lhs) tsquery document)
              with_lang)
            (add-Spells (value (text c.value)) mid))
          (literal (codes ")")))
]

operator-Spells :
    (env : Env) (col : Column) (c : Condition) (lhs : Bytes) (args : Args) (ps : List Piece)
    → Spells args ps lhs
    → Spells
        (operator_sql env col c lhs args).1
        (operator_reading env col c ps)
        (operator_sql env col c lhs args).0
unfolding operator_sql
operator-Spells env col c lhs args ps h =
    let operand = bound_value env.unicode col c in
    let named =
      behind
        (behind (behind (more_text operand args h) (literal (codes " ")))
          (literal (index_map c.operator sql_operators)))
        (literal (codes " ")) in
    let held = add-Spells (value (text operand)) args in
    elim (Bool-cases (is_empty c.quant)) [
      | inl e ↦ rw e (behind named held)
      | inr e ↦ rw e (
          behind (behind (behind (behind named (literal c.quant)) (literal (codes "("))) held)
            (literal (codes ")")))
    ]

comparison-Spells :
    (env : Env) (col : Column) (c : Condition) (lhs : Bytes) (args : Args) (ps : List Piece)
    → Spells args ps lhs
    → Spells
        (comparison_sql env col c lhs args).1
        (comparison_reading env col c ps)
        (comparison_sql env col c lhs args).0
unfolding comparison_sql
comparison-Spells env col c lhs args ps h = elim (Bool-cases (c.operator == codes "in")) [
  | inl e ↦ rw e (
      behind
        (behind (behind (more_text (pg_array_literal c.list) args h) (literal (codes " = ANY(")))
          (add-Spells (value (text (pg_array_literal c.list))) args))
        (literal (codes ")")))
  | inr e ↦ elim (Bool-cases (c.operator == codes "is")) [
    | inl f ↦
        rw (e, f)
          (behind (behind h (literal (codes " IS "))) (literal (index_map c.value is_values)))
    | inr f ↦ elim (Bool-cases (c.operator == codes "isdistinct")) [
      | inl g ↦
          rw (e, f, g)
            (behind (behind (more_text c.value args h) (literal (codes " IS DISTINCT FROM ")))
              (add-Spells (value (text c.value)) args))
      | inr g ↦ elim (Option-cases (lookup c.operator fts_functions)) [
        | inr (tsquery, i) ↦ rw (e, f, g, i) (text_search-Spells col c tsquery lhs args ps h)
        | inl i ↦ rw (e, f, g, i) (operator-Spells env col c lhs args ps h)
      ]
    ]
  ]
]

-- What a renderer that succeeds gives spells the pieces.
abbrev pub Spelled : Result (Bytes × Args) → List Piece → Type 0
Spelled (ok (s, args)) ps = Spells args ps s
Spelled (err e) ps = Unit {0}

pub condition-Spelled :
    (env : Env) (table : Table) (c : Condition) (args : Args)
    → Spelled (condition_sql env table c args) (condition_reading env table c)
unfolding condition_sql
condition-Spelled env table c args = elim (Option-cases (find_column table c.field.column)) [
  | inl e ↦ rw (condition_sql, Spelled, e) tt
  | inr (col, e) ↦
      rw (condition_sql, Spelled, condition_reading, e)
        (comparison-Spells env col c (field_sql env col c.field args).0
          (field_sql env col c.field args).1 (field_reading env col c.field)
          (field-Spells env col c.field args))
]
