-- ===== src/Rest/Server/Answers.antt =====
-- pkg/rest/server.go: what a response says of the request that it answers.
use pigo.Base.{
  ℕ, ◌≡◌, refl, Bool, true, false, not, Option, none, some, [], ◌∷◌, ◌⊎◌, inl, inr, arith, any, eqb,
  if◌then◌else◌, ◌||◌, is_empty,
}
use pigo.Base.Bytes.{Bytes, codes, ◌==◌}
use pigo.Base.Json.{Value}
use pigo.Pgx.Schema.{Table}
use pigo.Rest.Args.{Args}
use pigo.Rest.Error.{Result, ok, err}
use pigo.Rest.Headers.{parse_headers}
use pigo.Rest.Query.{
  QueryParams, StringMap, parse_query_params, build_select_query, build_insert_query,
  build_update_query, build_delete_query,
}
use pigo.Rest.Server.{
  Server, Database, Request, Response, failure, docs, answer, has_role, trim_prefix,
  table_from_path, counted, run_query, execute_query, execute_built, handle_get, handle_post,
  handle_patch, handle_delete, handle_method, handle_request,
}

-- The statement of a request on a table: one for each method of the API that has a body where it
-- needs one.
abbrev pub statement : Server → Table → Request → Option (Result (Bytes × Args))
statement s table r =
    let params = parse_query_params s.env.unicode r.query in
    let headers = parse_headers s.env.unicode r.prefer in
    if r.method == codes "GET"
    then some (build_select_query s.env table params)
    else if r.method == codes "POST"
    then (elim r.body [
      | none ↦ none
      | some data_map ↦ some (build_insert_query s.env table data_map (some headers))
    ])
    else if r.method == codes "PATCH"
    then (elim r.body [
      | none ↦ none
      | some data_map ↦ some (build_update_query s.env table data_map params (some headers))
    ])
    else if r.method == codes "DELETE"
    then some (build_delete_query s.env table params (some headers))
    else none

-- The rows are the database's answer to one statement of the request, under a role and a connection.
abbrev pub IsRun :
    {Rows : Type 0} → Server → Database Rows → Request → Bytes → Args → ℕ → Rows → Type 0
IsRun s db r sql args status rows =
    (db.run sql args ≡ some rows)
    × (has_role r.role ≡ true)
    × (db.connects_again r ≡ true)
    × (status ≡ (if r.method == codes "POST" then 201 else 200))

-- `P` of the answer, where the response is one; a failure has a status of an error.
abbrev pub Answers : {Rows : Type 0} → (ℕ → Rows → Type 0) → Response Rows → Type 0
Answers P (failure status) = any (eqb status) (400 ∷ 401 ∷ 404 ∷ 405 ∷ 500 ∷ []) ≡ true
Answers P docs = Unit {0}
Answers P (answer status rows range) = P status rows

abbrev is_failure : ℕ → Bool
is_failure status = any (eqb status) (400 ∷ 401 ∷ 404 ∷ 405 ∷ 500 ∷ [])

abbrev fails_properly : ℕ ⊎ Option Bytes → Bool
fails_properly (inl status) = is_failure status
fails_properly (inr range) = true

module _ {Rows : Type 0} (s : Server) (db : Database Rows) (r : Request) where
  counted-fails_properly : (params : QueryParams) → fails_properly (counted s db r params) ≡ true
  unfolding counted
  counted-fails_properly params = ground arith

  run_query-Answers :
      (params : QueryParams) (sql : Bytes) (args : Args)
      → has_role r.role ≡ true
      → db.connects_again r ≡ true
      → Answers (IsRun s db r sql args) (run_query s db r params sql args)
  unfolding run_query
  run_query-Answers params sql args h k =
      go (counted s db r params) (counted-fails_properly params) (db.run sql args) refl
    where
      go :
          (c : ℕ ⊎ Option Bytes)
          → fails_properly c ≡ true
          → (o : Option Rows) → db.run sql args ≡ o
          → Answers (IsRun s db r sql args) (elim c as (λ _. Response Rows) [
            | inl status ↦ failure status
            | inr range ↦ elim o as (λ _. Response Rows) [
              | none ↦ failure 500
              | some rows ↦ answer (if r.method == codes "POST" then 201 else 200) rows range
            ]
          ])
      go (inl status) f o e = f
      go (inr range) f none e = refl
      go (inr range) f (some rows) e = (e, h, k, refl)

  execute_query-Answers :
      (params : QueryParams) (sql : Bytes) (args : Args)
      → Answers (IsRun s db r sql args) (execute_query s db r params sql args)
  unfolding execute_query
  execute_query-Answers params sql args = go (db.connects_again r) refl (has_role r.role) refl
    where
      go :
          (c : Bool)
          → db.connects_again r ≡ c
          → (b : Bool) → has_role r.role ≡ b
          → Answers (IsRun s db r sql args) (
              if not c
              then failure 500
              else if not b
              then failure 401
              else run_query s db r params sql args)
      go false e b f = refl
      go true e false f = refl
      go true e true f = run_query-Answers params sql args f e

  -- an answer comes from a statement that was built
  abbrev IsServed : Option (Result (Bytes × Args)) → ℕ → Rows → Type 0
  IsServed none status rows = ⊥
  IsServed (some (err e)) status rows = ⊥
  IsServed (some (ok (sql, args))) status rows = IsRun s db r sql args status rows

  execute_built-Answers :
      (params : QueryParams) (built : Result (Bytes × Args))
      → Answers (IsServed (some built)) (execute_built s db r params built)
  execute_built-Answers params (err e) = refl
  execute_built-Answers params (ok (sql, args)) = execute_query-Answers params sql args

  if-Answers :
      (b : Bool) (o o' : Option (Result (Bytes × Args))) (x x' : Response Rows)
      → Answers (IsServed o) x
      → Answers (IsServed o') x'
      → Answers (IsServed (if b then o else o')) (if b then x else x')
  if-Answers true o o' x x' h k = h
  if-Answers false o o' x x' h k = k

  body-Answers :
      (params : QueryParams) (build : StringMap Value → Result (Bytes × Args))
      (body : Option (StringMap Value))
      → Answers
          (IsServed (elim body as (λ _. Option (Result (Bytes × Args))) [
            | none ↦ none
            | some data_map ↦ some (build data_map)
          ]))
          (elim body as (λ _. Response Rows) [
            | none ↦ failure 400
            | some data_map ↦ execute_built s db r params (build data_map)
          ])
  body-Answers params build none = refl
  body-Answers params build (some data_map) = execute_built-Answers params (build data_map)

  handle_method-Answers :
      (table : Table) → Answers (IsServed (statement s table r)) (handle_method s db r table)
  unfolding handle_method handle_get handle_post handle_patch handle_delete
  handle_method-Answers table =
      let params = parse_query_params s.env.unicode r.query in
      let headers = some (parse_headers s.env.unicode r.prefer) in
      let insert =
        λ (data_map : StringMap Value). build_insert_query s.env table data_map headers in
      let update =
        λ (data_map : StringMap Value). build_update_query s.env table data_map params headers in
      if-Answers (r.method == codes "GET") _ _ _ _
        (execute_built-Answers params (build_select_query s.env table params))
        (if-Answers (r.method == codes "POST") _ _ _ _ (body-Answers params insert r.body) (
          if-Answers (r.method == codes "PATCH") _ _ _ _ (body-Answers params update r.body) (
            if-Answers (r.method == codes "DELETE") _ _ _ _
              (execute_built-Answers params (build_delete_query s.env table params headers)) refl)))

  -- a table of the cache, reached over a connection, and its statement's rows
  abbrev pub IsServedFrom : ℕ → Rows → Type 0
  IsServedFrom status rows =
      (table : Table) × (table_from_path s.tables (trim_prefix r.path s.base_path) ≡ some table)
      × (db.connects r ≡ true)
      × IsServed (statement s table r) status rows

  with_table :
      (table : Table) (x : Response Rows)
      → table_from_path s.tables (trim_prefix r.path s.base_path) ≡ some table
      → db.connects r ≡ true
      → Answers (IsServed (statement s table r)) x
      → Answers IsServedFrom x
  with_table table (failure status) t c h = h
  with_table table docs t c h = h
  with_table table (answer status rows range) t c h = (table, t, c, h)

  -- A response with rows holds the database's rows for the one statement that the request's method,
  -- path, query, body and Prefer header ask for, on a table of the schema cache, run under a role that
  -- is not empty, with 201 for a POST and 200 otherwise; any failure has status 400, 401, 404, 405 or
  -- 500.
  pub request_is_served : Answers IsServedFrom (handle_request s db r)
  unfolding handle_request
  request_is_served =
      go (db.connects r) refl
        (is_empty (trim_prefix r.path s.base_path) || trim_prefix r.path s.base_path == codes "/")
        (table_from_path s.tables (trim_prefix r.path s.base_path)) refl
    where
      go :
          (c : Bool)
          → db.connects r ≡ c
          → (root : Bool) (o : Option Table)
          → table_from_path s.tables (trim_prefix r.path s.base_path) ≡ o
          → Answers IsServedFrom (
              if not c then failure 500 else if root then docs else elim o as (λ _. Response Rows) [
                | none ↦ failure 404
                | some table ↦ handle_method s db r table
              ])
      go false e root o t = refl
      go true e true o t = tt
      go true e false none t = refl
      go true e false (some table) t =
          with_table table (handle_method s db r table) t e (handle_method-Answers table)
