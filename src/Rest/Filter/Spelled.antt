-- ===== src/Rest/Filter/Spelled.antt =====
-- pkg/rest/filter.go: the SQL text of a filter beside a reading of its tree with every value in its place.
use pigo.Base.{
  if◌then◌else◌, is_empty, ℕ, ◌+◌, ◌≡◌, Bool, ◌&&◌, ◌||◌, none, some, List, [], ◌∷◌, ◌++◌,
  get_elem?,
}
use pigo.Base.Bytes.{Bytes, decimal, lookup, codes, index_map, ◌==◌}
use pigo.Base.Json.{text}
use pigo.Pgx.Schema.{Table, Column}
use pigo.Rest.Args.{find_column, value, Arg, int, Args}
use pigo.Rest.Arrays.{pg_array_literal}
use pigo.Rest.Filter.{
  FilterField, FilterNode, Condition, group, nil, is_values, condition, fts_functions, FilterNodes,
  cons, sql_operators, JsonPathStep,
}
use pigo.Rest.Filter.Sql.{bound_value, Env}

-- a part of a text: as it stands, or a parameter
pub data Piece : Type 0 where
  piece : Bytes → Piece
  bound : Arg → Piece

abbrev pub said : Bytes → List Piece
said s = piece s ∷ []

abbrev pub hole_for : Arg → List Piece
hole_for a = bound a ∷ []

-- A text spells pieces beside parameters: a parameter is spelled $n where it is the n-th of them.
pub data Spells (args : Args) : List Piece → Bytes → Type 0 where
  nothing : Spells args [] []
  literal : (s : Bytes) → Spells args (said s) s
  parameter :
      (n : ℕ) (a : Arg)
      → get_elem? args n ≡ some a
      → Spells args (hole_for a) (codes "$" ++ decimal (n + 1))
  behind :
      {ps qs : List Piece} {s t : Bytes}
      → Spells args ps s
      → Spells args qs t
      → Spells args (ps ++ qs) (s ++ t)

abbrev pub step_reading : JsonPathStep → List Piece
step_reading step =
    if step.is_index
    then said step.arrow ++ hole_for (int step.index) ++ said (codes "::int")
    else said step.arrow ++ hole_for (value (text step.key)) ++ said (codes "::text")

abbrev pub path_reading : List JsonPathStep → List Piece
path_reading [] = []
path_reading (step ∷ path) = step_reading step ++ path_reading path

-- a column as it is compared, or the value at a path of it
abbrev pub field_reading : Env → Column → FilterField → List Piece
field_reading env col f =
    if is_empty f.path
    then said (env.quote_ident col.name)
    else said (codes "(")
      ++ said (
          if col.data_type == codes "json" || col.data_type == codes "jsonb"
          then env.quote_ident col.name
          else codes "to_jsonb(" ++ env.quote_ident col.name ++ codes ")")
      ++ path_reading f.path
      ++ said (codes ")")

abbrev pub lang_reading : Condition → List Piece
lang_reading c = hole_for (value (text c.lang)) ++ said (codes "::regconfig, ")

-- the text that is searched; `lang` is a text search configuration or nothing
abbrev pub document_reading : Column → Condition → List Piece → List Piece → List Piece
document_reading col c lang lhs =
    if col.data_type == codes "tsvector" && is_empty c.field.path
    then lhs
    else said (codes "to_tsvector(") ++ lang ++ lhs ++ said (codes ")")

-- the document, and the query behind the same configuration
abbrev pub text_search_reading : Column → Condition → Bytes → List Piece → List Piece
text_search_reading col c tsquery lhs =
    if is_empty c.lang
    then document_reading col c [] lhs
      ++ said (codes " @@ ")
      ++ said tsquery
      ++ said (codes "(")
      ++ hole_for (value (text c.value))
      ++ said (codes ")")
    else document_reading col c (lang_reading c) lhs
      ++ said (codes " @@ ")
      ++ said tsquery
      ++ said (codes "(")
      ++ lang_reading c
      ++ hole_for (value (text c.value))
      ++ said (codes ")")

abbrev pub operator_reading : Env → Column → Condition → List Piece → List Piece
operator_reading env col c lhs =
    let operand = hole_for (value (text (bound_value env.unicode col c))) in
    if is_empty c.quant
    then lhs
      ++ said (codes " ")
      ++ said (index_map c.operator sql_operators)
      ++ said (codes " ")
      ++ operand
    else lhs
      ++ said (codes " ")
      ++ said (index_map c.operator sql_operators)
      ++ said (codes " ")
      ++ said c.quant
      ++ said (codes "(")
      ++ operand
      ++ said (codes ")")

abbrev pub comparison_reading : Env → Column → Condition → List Piece → List Piece
comparison_reading env col c lhs =
    if c.operator == codes "in"
    then lhs
      ++ said (codes " = ANY(")
      ++ hole_for (value (text (pg_array_literal c.list)))
      ++ said (codes ")")
    else if c.operator == codes "is"
    then lhs ++ said (codes " IS ") ++ said (index_map c.value is_values)
    else if c.operator == codes "isdistinct"
    then lhs ++ said (codes " IS DISTINCT FROM ") ++ hole_for (value (text c.value))
    else elim (lookup c.operator fts_functions) [
      | some tsquery ↦ text_search_reading col c tsquery lhs
      | none ↦ operator_reading env col c lhs
    ]

abbrev pub condition_reading : Env → Table → Condition → List Piece
condition_reading env table c = elim (find_column table c.field.column) [
  | none ↦ []
  | some col ↦ comparison_reading env col c (field_reading env col c.field)
]

abbrev pub negated_reading : Bool → List Piece → List Piece
negated_reading negate ps = if negate then said (codes "NOT ") ++ ps else ps

abbrev pub parens_reading : List Piece → List Piece
parens_reading ps = said (codes "(") ++ ps ++ said (codes ")")

abbrev pub join_reading : Bytes → List (List Piece) → List Piece
join_reading sep [] = []
join_reading sep (ps ∷ []) = ps
join_reading sep (ps ∷ qs ∷ rest) = ps ++ said sep ++ join_reading sep (qs ∷ rest)

unfoldable mutual
  pub reading : Env → Table → FilterNode → List Piece
  reading env table (group negate logic ns) =
      negated_reading negate
        (parens_reading (join_reading (codes " " ++ logic ++ codes " ") (readings env table ns)))
  reading env table (condition c) = negated_reading c.negate (
      if c.negate
      then parens_reading (condition_reading env table c)
      else condition_reading env table c)

  pub readings : Env → Table → FilterNodes → List (List Piece)
  readings env table nil = []
  readings env table (cons n ns) = reading env table n ∷ readings env table ns
