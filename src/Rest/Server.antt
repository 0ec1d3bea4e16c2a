-- ===== src/Rest/Server.antt =====
-- pkg/rest/server.go: the handling of one request. The database and the pool are parameters; the
-- response is a value.
pub mod Ranges
pub mod Answers
use pigo.Base.{
  ℕ, ◌-◌, ◌+◌, ◌%◌, ◌^◌, Bool, true, false, not, ◌&&◌, ◌||◌, Option, none, some, List, [], ◌∷◌,
  ◌++◌, eqb, ltb, length, drop, is_empty, if◌then◌else◌, ◌⊎◌, inl, inr,
}
use pigo.Base.Int.{ℤ, pos, negsuc, pos_part, neg_part, ◌+ℤ◌, ltℤ, is_positive}
use pigo.Base.Bytes.{Bytes, codes, ◌==◌, has_prefix, split, lookup, decimal}
use pigo.Base.Json.{Value}
use pigo.Base.Utf8.{trim_func}
use pigo.Pgx.Schema.{Table}
use pigo.Rest.Args.{Args}
use pigo.Rest.Error.{Error, Result, ok, err}
use pigo.Rest.Filter.Sql.{Env}
use pigo.Rest.Headers.{Headers, parse_headers, wants_count_exact}
use pigo.Rest.Query.{
  QueryParams, StringMap, parse_query_params, build_select_query, build_insert_query,
  build_update_query, build_delete_query,
}

-- %d of an int64
unfoldable pub format_int : ℤ → Bytes
format_int (pos n) = decimal n
format_int (negsuc n) = codes "-" ++ decimal (n + 1)

-- an integer as Go's int64 holds it
unfoldable pub wrap64 : ℤ → ℤ
wrap64 z =
    let m = (pos_part z + (2 ^ 64 - neg_part z % 2 ^ 64)) % 2 ^ 64 in
    if ltb m (2 ^ 63) then pos m else negsuc (2 ^ 64 - m - 1)

-- the last row of the page, before it is held to the count
unfoldable pub range_end : ℤ → ℤ → ℤ
range_end start limit = wrap64 (wrap64 (start +ℤ limit) +ℤ negsuc 0)

-- The Content-Range header for a count of rows.
unfoldable pub content_range : ℤ → ℤ → ℕ → Bytes
content_range limit offset count =
    let total = codes "/" ++ decimal count in
    let last = range_end offset limit in
    let end = if ltℤ last (pos count) then last else pos count +ℤ negsuc 0 in
    if is_positive limit
    then (if ltℤ offset (pos count)
        then format_int offset ++ codes "-" ++ format_int end ++ total
        else codes "*" ++ total)
    else codes "*" ++ total

-- the table that a path names, with "public" where it names no schema
unfoldable pub table_key : Bytes → Bytes
table_key path = elim (split b'/' (trim_func (λ c. eqb c b'/') path)) [
  | [] ↦ []
  | name ∷ [] ↦ codes "public." ++ name
  | schema ∷ name ∷ more ↦ schema ++ codes "." ++ name
]

-- Server.tableFromPath on the schema cache's snapshot
unfoldable pub table_from_path : StringMap Table → Bytes → Option Table
table_from_path tables path = lookup (table_key path) tables

pub record Request : Type 0 where
  pub method : Bytes
  pub path : Bytes
  pub prefer : Bytes
  pub query : StringMap (List Bytes)
  -- the body as an object, none where httputil.Bind fails
  pub body : Option (StringMap Value)
  -- the role claim of the context, "" or absent where no middleware set it
  pub role : Option Bytes

-- the part of a response that the program decides
pub data Response (Rows : Type 0) : Type 0 where
  -- httputil.Error with a status
  failure : ℕ → Response Rows
  docs : Response Rows
  -- httputil.JSON with a status, the rows and the Content-Range header
  answer : ℕ → Rows → Option Bytes → Response Rows

-- pgxpool and PostgreSQL: whether httputil.ConnWithRole has a connection when handleRequest asks for
-- one and when executeQuery asks again, a count and a result.
pub record Database (Rows : Type 0) : Type 0 where
  pub connects : Request → Bool
  pub connects_again : Request → Bool
  pub count : Bytes → Args → Option ℕ
  pub run : Bytes → Args → Option Rows

pub record Server : Type 0 where
  pub env : Env
  pub base_path : Bytes
  pub tables : StringMap Table

-- strings.TrimPrefix
unfoldable pub trim_prefix : Bytes → Bytes → Bytes
trim_prefix s p = if has_prefix s p then drop (length p) s else s

abbrev pub has_role : Option Bytes → Bool
has_role none = false
has_role (some role) = not (is_empty role)

-- the count query of executeQuery: the same select without limit and offset
abbrev pub count_params : QueryParams → QueryParams
count_params params = record params { limit = pos 0; offset = pos 0 }

abbrev pub count_query : Bytes → Bytes
count_query sql = codes "SELECT COUNT(*) FROM (" ++ sql ++ codes ") AS count_query"

module _ {Rows : Type 0} (s : Server) (db : Database Rows) (r : Request) where
  -- The Content-Range header where a count is asked for; a status where that fails.
  unfoldable pub counted : QueryParams → ℕ ⊎ Option Bytes
  counted params =
      let headers = parse_headers s.env.unicode r.prefer in
      if wants_count_exact s.env.unicode headers.prefer
      then elim (table_from_path s.tables (trim_prefix r.path s.base_path)) [
        | none ↦ inl 404
        | some table ↦ elim (build_select_query s.env table (count_params params)) [
          | err e ↦ inl 500
          | ok (sql, args) ↦ elim (db.count (count_query sql) args) [
            | none ↦ inl 500
            | some n ↦ inr (some (content_range params.limit params.offset n))
          ]
        ]
      ]
      else inr none

  unfoldable pub run_query : QueryParams → Bytes → Args → Response Rows
  run_query params sql args = elim (counted params) [
    | inl status ↦ failure status
    | inr range ↦ elim (db.run sql args) [
      | none ↦ failure 500
      | some rows ↦ answer (if r.method == codes "POST" then 201 else 200) rows range
    ]
  ]

  unfoldable pub execute_query : QueryParams → Bytes → Args → Response Rows
  execute_query params sql args =
      if not (db.connects_again r)
      then failure 500
      else if not (has_role r.role)
      then failure 401
      else run_query params sql args

  -- A statement is run; an error in building it is the client's.
  abbrev pub execute_built : QueryParams → Result (Bytes × Args) → Response Rows
  execute_built params (err e) = failure 400
  execute_built params (ok (sql, args)) = execute_query params sql args

  unfoldable pub handle_get : Table → Response Rows
  handle_get table =
      let params = parse_query_params s.env.unicode r.query in
      execute_built params (build_select_query s.env table params)

  unfoldable pub handle_post : Table → Response Rows
  handle_post table = elim r.body [
    | none ↦ failure 400
    | some data_map ↦
        execute_built (parse_query_params s.env.unicode r.query)
          (build_insert_query s.env table data_map (some (parse_headers s.env.unicode r.prefer)))
  ]

  unfoldable pub handle_patch : Table → Response Rows
  handle_patch table = elim r.body [
    | none ↦ failure 400
    | some data_map ↦
        let params = parse_query_params s.env.unicode r.query in
        execute_built params (
          build_update_query s.env table data_map params
            (some (parse_headers s.env.unicode r.prefer)))
  ]

  unfoldable pub handle_delete : Table → Response Rows
  handle_delete table =
      let params = parse_query_params s.env.unicode r.query in
      execute_built params
        (build_delete_query s.env table params (some (parse_headers s.env.unicode r.prefer)))

  unfoldable pub handle_method : Table → Response Rows
  handle_method table =
      if r.method == codes "GET"
      then handle_get table
      else if r.method == codes "POST"
      then handle_post table
      else if r.method == codes "PATCH"
      then handle_patch table
      else if r.method == codes "DELETE"
      then handle_delete table
      else failure 405

  unfoldable pub handle_request : Response Rows
  handle_request =
      let path = trim_prefix r.path s.base_path in
      if not (db.connects r)
      then failure 500
      else if is_empty path || path == codes "/"
      then docs
      else elim (table_from_path s.tables path) [
        | none ↦ failure 404
        | some table ↦ handle_method table
      ]
