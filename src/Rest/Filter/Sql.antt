-- ===== src/Rest/Filter/Sql.antt =====
-- pkg/rest/filter.go: rendering a filter as SQL, with its values as bind parameters.
-- `quote_ident` is pgx.Identifier.Sanitize on one name, which is not of this repository.
use pigo.Base.{
  Bool, true, not, ◌&&◌, Option, none, some, List, [], ◌∷◌, ◌++◌, map, eqb, is_empty, if◌then◌else◌,
  ◌||◌,
}
use pigo.Base.Bytes.{Bytes, codes, ◌==◌, join, lookup, index_map, contains_byte}
use pigo.Base.Json.{Value, text}
use pigo.Base.Utf8.{Unicode}
use pigo.Pgx.Schema.{Table, Column}
use pigo.Rest.Args.{value, int, Args, add, find_column}
use pigo.Rest.Arrays.{pg_array_literal, convert_to_postgres_array_or_json}
use pigo.Rest.Error.{Result, ok, err, no_column, ◌>>=◌}
use pigo.Rest.Filter.{
  RawFilter, JsonPathStep, FilterField, Condition, FilterNode, group, condition, FilterNodes, nil,
  cons, sql_operators, fts_functions, is_values,
}
use pigo.Rest.Filter.Parse.{parse_filter}

abbrev pub add_text : Bytes → Args → Bytes × Args
add_text s args = add (value (text s)) args

-- What the program passes to packages outside the repository.
pub record Env : Type 0 where
  pub unicode : Unicode
  -- pgx.Identifier{name}.Sanitize() and pgx.Identifier{schema, name}.Sanitize()
  pub quote_ident : Bytes → Bytes
  pub quote_qualified : Bytes → Bytes → Bytes
  -- json.Marshal
  pub marshal : Value → Option Bytes

-- Keys and indices of a JSON path are bind parameters.
unfoldable pub step_sql : JsonPathStep → Args → Bytes × Args
step_sql step args =
    if step.is_index
    then (let (ph, args') = add (int step.index) args in (step.arrow ++ ph ++ codes "::int", args'))
    else (let (ph, args') = add_text step.key args in (step.arrow ++ ph ++ codes "::text", args'))

unfoldable pub steps_sql : List JsonPathStep → Args → Bytes × Args
steps_sql [] args = ([], args)
steps_sql (step ∷ path) args =
    let (sql, args') = step_sql step args in
    let (rest, args'') = steps_sql path args' in (sql ++ rest, args'')

-- filterField.toSQL; columns that are not json or jsonb go through to_jsonb() first
unfoldable pub field_sql : Env → Column → FilterField → Args → Bytes × Args
field_sql env col f args =
    let sql = env.quote_ident col.name in
    let is_json =
      not (not (col.data_type == codes "json") && not (col.data_type == codes "jsonb")) in
    let base = if is_json then sql else codes "to_jsonb(" ++ sql ++ codes ")" in
    let (path, args') = steps_sql f.path args in
    if is_empty f.path then (sql, args) else (codes "(" ++ base ++ path ++ codes ")", args')

abbrev pub tsvector_of : Column → Condition → Bytes → Bytes → Bytes
tsvector_of col c lang lhs =
    if col.data_type == codes "tsvector" && is_empty c.field.path
    then lhs
    else codes "to_tsvector(" ++ lang ++ lhs ++ codes ")"

-- fts and its variants; the text search configuration is a bind parameter too
unfoldable pub text_search_sql : Column → Condition → Bytes → Bytes → Args → Bytes × Args
text_search_sql col c tsquery lhs args =
    if is_empty c.lang
    then (let (ph, args') = add_text c.value args in
        (
          tsvector_of col c [] lhs ++ codes " @@ " ++ tsquery ++ codes "(" ++ ph ++ codes ")",
          args',
        ))
    else (let (ph, args') = add_text c.lang args in
        let lang = ph ++ codes "::regconfig, " in
        let (ph', args'') = add_text c.value args' in
        (
          tsvector_of col c lang lhs
              ++ codes " @@ "
              ++ tsquery
              ++ codes "("
              ++ lang
              ++ ph'
              ++ codes ")",
          args'',
        ))

abbrev pub star_to_percent : Bytes → Bytes
star_to_percent s = map (λ c. if eqb c b'*' then b'%' else c) s

abbrev pub starts_literal : Bytes → Bool
starts_literal [] = true
starts_literal (c ∷ s) = contains_byte c (codes "{[(\"")

-- the operand as it is bound
unfoldable pub bound_value : Unicode → Column → Condition → Bytes
bound_value u col c =
    if c.operator == codes "like" || c.operator == codes "ilike"
    then star_to_percent c.value
    else if (c.operator == codes "cs" || c.operator == codes "cd")
        && col.data_type == codes "ARRAY"
        && not (starts_literal c.value)
    then convert_to_postgres_array_or_json u c.value
    else c.value

unfoldable pub operator_sql : Env → Column → Condition → Bytes → Args → Bytes × Args
operator_sql env col c lhs args =
    let op = index_map c.operator sql_operators in
    let (ph, args') = add_text (bound_value env.unicode col c) args in
    if is_empty c.quant
    then (lhs ++ codes " " ++ op ++ codes " " ++ ph, args')
    else (lhs ++ codes " " ++ op ++ codes " " ++ c.quant ++ codes "(" ++ ph ++ codes ")", args')

-- conditionSQL behind the lookup of the column, with the field rendered as `lhs`
unfoldable pub comparison_sql : Env → Column → Condition → Bytes → Args → Bytes × Args
comparison_sql env col c lhs args =
    if c.operator == codes "in"
    then (let (ph, args') = add_text (pg_array_literal c.list) args in
        (lhs ++ codes " = ANY(" ++ ph ++ codes ")", args'))
    else if c.operator == codes "is"
    then (lhs ++ codes " IS " ++ index_map c.value is_values, args)
    else if c.operator == codes "isdistinct"
    then (let (ph, args') = add_text c.value args in
        (lhs ++ codes " IS DISTINCT FROM " ++ ph, args'))
    else elim (lookup c.operator fts_functions) [
      | some tsquery ↦ text_search_sql col c tsquery lhs args
      | none ↦ operator_sql env col c lhs args
    ]

unfoldable pub condition_sql : Env → Table → Condition → Args → Result (Bytes × Args)
condition_sql env table c args = elim (find_column table c.field.column) [
  | none ↦ err (no_column table.name c.field.column)
  | some col ↦
      let (lhs, args') = field_sql env col c.field args in ok (comparison_sql env col c lhs args')
]

abbrev pub negated : Bool → Bytes → Bytes
negated negate sql = if negate then codes "NOT " ++ sql else sql

abbrev pub parens : Bytes → Bytes
parens sql = codes "(" ++ sql ++ codes ")"

-- filterNode.toSQL. Groups are always parenthesised; a negated condition is NOT (...).
unfoldable mutual
  pub node_sql : Env → Table → FilterNode → Args → Result (Bytes × Args)
  node_sql env table (group negate logic children) args = do
    (parts, args') ← nodes_sql env table children args
    ok (negated negate (parens (join (codes " " ++ logic ++ codes " ") parts)), args')
  node_sql env table (condition c) args = do
    (sql, args') ← condition_sql env table c args
    ok (negated c.negate (if c.negate then parens sql else sql), args')

  pub nodes_sql : Env → Table → FilterNodes → Args → Result (List Bytes × Args)
  nodes_sql env table nil args = ok ([], args)
  nodes_sql env table (cons child children) args = do
    (part, args') ← node_sql env table child args
    (parts, args'') ← nodes_sql env table children args'
    ok (part ∷ parts, args'')

-- The loop of buildWhereClause: each filter is parsed and rendered before the next.
unfoldable pub where_conditions : Env → Table → List RawFilter → Args → Result (List Bytes × Args)
where_conditions env table [] args = ok ([], args)
where_conditions env table (f ∷ filters) args = do
  node ← parse_filter env.unicode f
  (cond, args') ← node_sql env table node args
  (conds, args'') ← where_conditions env table filters args'
  ok (cond ∷ conds, args'')

unfoldable pub build_where_clause : Env → Table → List RawFilter → Args → Result (Bytes × Args)
build_where_clause env table filters args = do
  (conds, args') ← where_conditions env table filters args
  ok (join (codes " AND ") conds, args')
