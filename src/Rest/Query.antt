-- ===== src/Rest/Query.antt =====
-- pkg/rest/query.go: query parameters, and the four statements of the REST API.
pub mod Filtered
pub mod Collected
pub mod Counting
pub mod Sorted
use pigo.Base.{
  ℕ, ◌-◌, ◌*◌, ◌+◌, ◌^◌, Bool, true, false, not, ◌&&◌, ◌||◌, Option, none, some, List, [], ◌∷◌,
  ◌++◌, map, any, eqb, ltb, leb, length, drop, is_empty, take_while, if◌then◌else◌,
}
use pigo.Base.Int.{ℤ, pos, neg, is_positive}
use pigo.Base.Bytes.{Bytes, codes, ◌==◌, split, join, lookup, head_or}
use pigo.Base.Json.{Value, null, text}
use pigo.Base.Utf8.{Unicode, is_ascii, is_ascii_digit}
use pigo.Pgx.Schema.{Table, Column, kind_composite, is_composite}
use pigo.Rest.Args.{Arg, value, int, Args, add, find_column}
use pigo.Rest.Error.{
  Result, ok, err, no_column, not_encodable, nothing_to_insert, nothing_to_update, ◌>>=◌,
}
use pigo.Rest.Filter.{RawFilter}
use pigo.Rest.Filter.Sql.{Env, build_where_clause}
use pigo.Rest.Headers.{Headers, wants_representation}
use pigo.Rest.Order.{OrderParam, parse_order_param, build_order_by_clause}

pub record QueryParams : Type 0 where
  pub select : List Bytes
  pub order : List OrderParam
  pub limit : ℤ
  pub offset : ℤ
  pub filters : List RawFilter

-- A map with string keys: Go does not order it. No key stands twice.
abbrev pub StringMap {ℓ} : Type ℓ → Type ℓ
StringMap V = List (Bytes × V)

-- slices.Sorted(maps.Keys(m)) with the values: strings are ordered byte by byte.
unfoldable pub le_bytes : Bytes → Bytes → Bool
le_bytes [] t = true
le_bytes (c ∷ s) [] = false
le_bytes (c ∷ s) (d ∷ t) = ltb c d || (eqb c d && le_bytes s t)

module _ {V : Type 0} where
  unfoldable pub insert_key : Bytes × V → StringMap V → StringMap V
  insert_key e [] = e ∷ []
  insert_key e (f ∷ m) = if le_bytes e.0 f.0 then e ∷ f ∷ m else f ∷ insert_key e m

  unfoldable pub sorted : StringMap V → StringMap V
  sorted [] = []
  sorted (e ∷ m) = insert_key e (sorted m)

-- url.Values.Get
unfoldable pub get_value : Bytes → StringMap (List Bytes) → Bytes
get_value key m = elim (lookup key m) [ none ↦ [] | some vs ↦ head_or [] vs ]

-- fmt.Sscanf(s, "%d", &n) on an ASCII text: spaces, a sign and digits of a 64-bit integer; what
-- follows is not read. `none` is an error.
abbrev is_scan_space : ℕ → Bool
is_scan_space c = eqb c 32 || eqb c 9 || eqb c 11 || eqb c 12 || eqb c 13

decimal_value : ℕ → Bytes → ℕ
decimal_value acc [] = acc
decimal_value acc (c ∷ s) = decimal_value (acc * 10 + (c - 48)) s

scan_digits : Bool → Bytes → Option ℤ
scan_digits minus s =
    let digits = take_while is_ascii_digit s in
    let n = decimal_value 0 digits in
    if is_empty digits
    then none
    else if minus
    then (if leb n (2 ^ 63) then some (neg n) else none)
    else if ltb n (2 ^ 63)
    then some (pos n)
    else none

scan_signed : Bytes → Option ℤ
scan_signed [] = none
scan_signed (c ∷ s) =
    if eqb c b'-'
    then scan_digits true s
    else if eqb c b'+'
    then scan_digits false s
    else scan_digits false (c ∷ s)

unfoldable pub scan_int : Unicode → Bytes → Option ℤ
unfolding scan_signed scan_digits decimal_value
scan_int u s =
    if is_ascii s then scan_signed (drop (length (take_while is_scan_space s)) s) else u.scan_int s

unfoldable pub parse_int_param : Unicode → Bytes → ℤ → ℤ
parse_int_param u s default = elim (scan_int u s) [ none ↦ default | some n ↦ n ]

unfoldable pub is_reserved_param : Bytes → Bool
is_reserved_param name =
    any (λ w. w == name)
      (codes "select"
        ∷ codes "order"
        ∷ codes "limit"
        ∷ codes "offset"
        ∷ codes "columns"
        ∷ codes "on_conflict"
        ∷ [])

-- Every value of every key that is not reserved is a filter.
abbrev pub filters_of_key : Bytes → List Bytes → List RawFilter
filters_of_key key values = map (λ v. record { key = key; value = v }) values

unfoldable pub collect_filters : StringMap (List Bytes) → List RawFilter
collect_filters [] = []
collect_filters ((key, values) ∷ m) =
    let rest = collect_filters m in
    if is_reserved_param key then rest else filters_of_key key values ++ rest

unfoldable pub parse_query_params : Unicode → StringMap (List Bytes) → QueryParams
parse_query_params u query =
    let select = get_value (codes "select") query in
    let order = get_value (codes "order") query in
    let limit = get_value (codes "limit") query in
    let offset = get_value (codes "offset") query in
    record {
      select = if is_empty select then [] else split b',' select;
      order = if is_empty order then [] else parse_order_param u order;
      limit = if is_empty limit then pos 100 else parse_int_param u limit (pos 100);
      offset = if is_empty offset then pos 0 else parse_int_param u offset (pos 0);
      filters = collect_filters (sorted query);
    }

-- uuid, date and time columns are cast to text, composites go through to_jsonb
unfoldable pub column_cast_expression : Env → Column → Bytes
column_cast_expression env col =
    let ident = env.quote_ident col.name in
    if is_composite col
    then codes "to_jsonb(" ++ ident ++ codes ") AS " ++ ident
    else if col.data_type == codes "uuid"
        || col.data_type == codes "date"
        || col.data_type == codes "time without time zone"
    then ident ++ codes "::TEXT AS " ++ ident
    else ident

unfoldable pub returning_list : Env → Table → Bytes
returning_list env table = join (codes ", ") (map (column_cast_expression env) table.columns)

unfoldable pub selected_columns : Env → Table → List Bytes → List Bytes
selected_columns env table [] = []
selected_columns env table (name ∷ selected) =
    let rest = selected_columns env table selected in
    if name == codes "*"
    then map (column_cast_expression env) table.columns ++ rest
    else elim (find_column table name) [
      | none ↦ rest
      | some col ↦ column_cast_expression env col ∷ rest
    ]

unfoldable pub select_list : Env → Table → List Bytes → Bytes
select_list env table selected =
    if is_empty selected
    then (if is_empty table.columns
        then codes "*"
        else join (codes ", ") (selected_columns env table (codes "*" ∷ [])))
    else join (codes ", ") (selected_columns env table selected)

-- a clause with its keyword, where it is not empty
abbrev pub clause : Bytes → Bytes → Bytes
clause keyword sql = if is_empty sql then [] else keyword ++ sql

-- a clause of one integer parameter, where it is positive
abbrev pub int_clause : Bytes → ℤ → Args → Bytes × Args
int_clause keyword n args =
    if is_positive n
    then (let (ph, args') = add (int n) args in (keyword ++ ph, args'))
    else ([], args)

unfoldable pub build_select_query : Env → Table → QueryParams → Result (Bytes × Args)
build_select_query env table params = do
  (conds, args) ← build_where_clause env table params.filters []
  (order, args') ← build_order_by_clause env table params.order args
  let limited = int_clause (codes " LIMIT ") params.limit args'
  let shifted = int_clause (codes " OFFSET ") params.offset limited.1
  ok (
    codes "SELECT "
        ++ select_list env table params.select
        ++ codes " FROM "
        ++ env.quote_qualified table.schema table.name
        ++ clause (codes " WHERE ") conds
        ++ clause (codes " ORDER BY ") order
        ++ limited.0
        ++ shifted.0,
    shifted.1,
  )

-- json.Marshal is a function of `env`, as it is not of this repository.
unfoldable pub column_value_expression : Env → Column → Value → Args → Result (Bytes × Args)
column_value_expression env col null args = ok (add (value null) args)
column_value_expression env col (text s) args = ok (add (value (text s)) args)
column_value_expression env col v args =
    if col.type_kind == kind_composite
    then elim (env.marshal v) [
      | none ↦ err (not_encodable col.name)
      | some encoded ↦
          let (ph, args') = add (value (text encoded)) args in
          ok (
            codes "jsonb_populate_record(NULL::"
                ++ env.quote_qualified col.udt_schema col.udt_name
                ++ codes ", "
                ++ ph
                ++ codes "::jsonb)",
            args',
          )
    ]
    else ok (add (value v) args)

-- One column of INSERT or UPDATE, with the expression for its value.
unfoldable pub column_value : Env → Table → Bytes × Value → Args → Result ((Bytes × Bytes) × Args)
column_value env table (key, v) args = elim (find_column table key) [
  | none ↦ err (no_column table.name key)
  | some col ↦ do
    (sql, args') ← column_value_expression env col v args
    ok ((env.quote_ident col.name, sql), args')
]

unfoldable pub column_values :
    Env → Table → StringMap Value → Args → Result (List (Bytes × Bytes) × Args)
column_values env table [] args = ok ([], args)
column_values env table (e ∷ data_map) args = do
  (column, args') ← column_value env table e args
  (columns, args'') ← column_values env table data_map args'
  ok (column ∷ columns, args'')

abbrev pub returning_clause : Env → Table → Option Headers → Bytes
returning_clause env table none = []
returning_clause env table (some headers) =
    if wants_representation headers.prefer
    then codes " RETURNING " ++ returning_list env table
    else []

unfoldable pub build_insert_query :
    Env → Table → StringMap Value → Option Headers → Result (Bytes × Args)
build_insert_query env table data_map headers = do
  (columns, args) ← column_values env table (sorted data_map) []
  if is_empty columns
      then err nothing_to_insert
      else ok (
        codes "INSERT INTO "
            ++ env.quote_qualified table.schema table.name
            ++ codes " ("
            ++ join (codes ", ") (map (λ c. c.0) columns)
            ++ codes ") VALUES ("
            ++ join (codes ", ") (map (λ c. c.1) columns)
            ++ codes ")"
            ++ returning_clause env table headers,
        args,
      )

unfoldable pub build_update_query :
    Env → Table → StringMap Value → QueryParams → Option Headers → Result (Bytes × Args)
build_update_query env table data_map params headers = do
  (columns, args) ← column_values env table (sorted data_map) []
  if is_empty columns then err nothing_to_update else do
    (conds, args') ← build_where_clause env table params.filters args
    ok (
      codes "UPDATE "
          ++ env.quote_qualified table.schema table.name
          ++ codes " SET "
          ++ join (codes ", ") (map (λ c. c.0 ++ codes " = " ++ c.1) columns)
          ++ clause (codes " WHERE ") conds
          ++ returning_clause env table headers,
      args',
    )

unfoldable pub build_delete_query :
    Env → Table → QueryParams → Option Headers → Result (Bytes × Args)
build_delete_query env table params headers = do
  (conds, args) ← build_where_clause env table params.filters []
  ok (
    codes "DELETE FROM "
        ++ env.quote_qualified table.schema table.name
        ++ clause (codes " WHERE ") conds
        ++ returning_clause env table headers,
    args,
  )
