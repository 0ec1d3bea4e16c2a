-- ===== src/Rest/Query/Counting.antt =====
-- pkg/rest/query.go and server.go: LIMIT and OFFSET of a SELECT, and the query that is counted.
use mathlib.Core.List.{append-nil, append_assoc}
use pigo.Base.{
  if◌then◌else◌, ltb, ◌+◌, length, length-append, ℕ, zero, suc, true, Option, none, some, ◌∷◌,
  arith, ap₂, ◌≡◌, refl, sym, ap, ◌∙◌, [], ◌++◌,
}
use pigo.Base.Bytes.{decimal, ◌==◌, Bytes, codes}
use pigo.Base.Int.{ℤ, negsuc, pos}
use pigo.Pgx.Schema.{Table}
use pigo.Rest.Args.{int, add, placeholder, Args}
use pigo.Rest.Error.{Result, ok, err, ◌>>=◌}
use pigo.Rest.Filter.Sql.{Env, build_where_clause}
use pigo.Rest.Headers.{parse_headers, wants_count_exact}
use pigo.Rest.Order.{build_order_by_clause}
use pigo.Rest.Query.{
  parse_query_params, QueryParams, int_clause, build_select_query, select_list, clause,
}
use pigo.Rest.Server.{
  handle_get, counted, execute_query, content_range, Database, Request, table_from_path, answer,
  Server, has_role, trim_prefix, run_query,
}

-- without the page's bounds
abbrev pub unpaged : QueryParams → QueryParams
unpaged params = record params { limit = pos 0; offset = pos 0 }

-- a bound of the page, where it is positive
abbrev pub bound : ℤ → Option ℕ
bound (pos zero) = none
bound (pos (suc n)) = some (suc n)
bound (negsuc n) = none

-- The text and the parameters of a page's limit and offset, behind k parameters.
abbrev pub page : Option ℕ → Option ℕ → ℕ → Bytes × Args
page none none k = ([], [])
page (some limit) none k = (codes " LIMIT $" ++ decimal (suc k), int (pos limit) ∷ [])
page none (some offset) k = (codes " OFFSET $" ++ decimal (suc k), int (pos offset) ∷ [])
page (some limit) (some offset) k = (
  codes " LIMIT $" ++ decimal (suc k) ++ (codes " OFFSET $" ++ decimal (suc (suc k))),
  int (pos limit) ∷ int (pos offset) ∷ [],
)

abbrev pub page_of : QueryParams → Args → Bytes × Args
page_of params args = page (bound params.limit) (bound params.offset) (length args)

-- a query with its page behind it
abbrev pub with_page : QueryParams → Bytes × Args → Bytes × Args
with_page params p = (p.0 ++ (page_of params p.1).0, p.1 ++ (page_of params p.1).1)

abbrev paged : QueryParams → Result (Bytes × Args) → Result (Bytes × Args)
paged params (ok p) = ok (with_page params p)
paged params (err e) = err e

positive_clause :
    (keyword : Bytes) (n : ℕ) (args : Args)
    → int_clause keyword (pos (suc n)) args
      ≡ (keyword ++ (codes "$" ++ decimal (suc (length args))), args ++ int (pos (suc n)) ∷ [])
unfolding add placeholder
positive_clause keyword n args =
    let positive : ltb 0 (suc n) ≡ true = ground arith in
    let next : length args + 1 ≡ suc (length args) = omega arith in
    ap (λ b. if b then bound_as (length args + 1) else ([], args)) positive ∙ ap bound_as next
  where
    bound_as : ℕ → Bytes × Args
    bound_as k = (keyword ++ (codes "$" ++ decimal k), args ++ int (pos (suc n)) ∷ [])

-- the two clauses of buildSelectQuery
abbrev both_clauses : ℤ → ℤ → Args → Bytes × Args
both_clauses limit offset args =
    let limited = int_clause (codes " LIMIT ") limit args in
    let shifted = int_clause (codes " OFFSET ") offset limited.1 in
    (limited.0 ++ shifted.0, shifted.1)

abbrev behind : Args → Bytes × Args → Bytes × Args
behind args p = (p.0, args ++ p.1)

clauses-page :
    (limit offset : ℤ) (args : Args)
    → both_clauses limit offset args ≡ behind args (page (bound limit) (bound offset) (length args))
clauses-page (pos zero) (pos zero) args = ap (λ v. ([], v)) (sym (append-nil args))
clauses-page (pos zero) (pos (suc m)) args = positive_clause (codes " OFFSET ") m args
clauses-page (pos zero) (negsuc m) args = ap (λ v. ([], v)) (sym (append-nil args))
clauses-page (negsuc n) (pos zero) args = ap (λ v. ([], v)) (sym (append-nil args))
clauses-page (negsuc n) (pos (suc m)) args = positive_clause (codes " OFFSET ") m args
clauses-page (negsuc n) (negsuc m) args = ap (λ v. ([], v)) (sym (append-nil args))
clauses-page (pos (suc n)) (pos zero) args = rw (positive_clause (codes " LIMIT ") n args) (
    ap (λ v. (v, args ++ int (pos (suc n)) ∷ []))
      (append-nil (codes " LIMIT $" ++ decimal (suc (length args)))))
clauses-page (pos (suc n)) (negsuc m) args = rw (positive_clause (codes " LIMIT ") n args) (
    ap (λ v. (v, args ++ int (pos (suc n)) ∷ []))
      (append-nil (codes " LIMIT $" ++ decimal (suc (length args)))))
clauses-page (pos (suc n)) (pos (suc m)) args =
    let limited = args ++ int (pos (suc n)) ∷ [] in
    let more : length limited ≡ suc (length args) =
      omega (arith, length-append args (int (pos (suc n)) ∷ [])) in
    ap
      (λ c.
        let shifted = int_clause (codes " OFFSET ") (pos (suc m)) c.1 in
        (c.0 ++ shifted.0, shifted.1))
      (positive_clause (codes " LIMIT ") n args)
    ∙ (ap (λ c. (limit_text ++ c.0, c.1)) (positive_clause (codes " OFFSET ") m limited)
        ∙ ap₂ (λ k v. (limit_text ++ (codes " OFFSET $" ++ decimal (suc k)), v)) more
            (append_assoc args (int (pos (suc n)) ∷ []) (int (pos (suc m)) ∷ [])))
  where
    limit_text : Bytes
    limit_text = codes " LIMIT $" ++ decimal (suc (length args))

-- the text of a SELECT up to its LIMIT clause
abbrev select_text : Env → Table → QueryParams → Bytes → Bytes → Bytes
select_text env table params conds order =
    codes "SELECT "
    ++ select_list env table params.select
    ++ codes " FROM "
    ++ env.quote_qualified table.schema table.name
    ++ clause (codes " WHERE ") conds
    ++ clause (codes " ORDER BY ") order

paged-bind :
    {A : Type 0} (params : QueryParams) (r : Result A) (f g : A → Result (Bytes × Args))
    → ((x : A) → f x ≡ paged params (g x))
    → (r >>= f) ≡ paged params (r >>= g)
paged-bind params (ok x) f g h = h x
paged-bind params (err e) f g h = refl

build_select_query-paged :
    (env : Env) (table : Table) (params : QueryParams)
    → build_select_query env table params
      ≡ paged params (build_select_query env table (unpaged params))
unfolding build_select_query
build_select_query-paged env table params =
    paged-bind params (build_where_clause env table params.filters []) _ _ λ w.
      paged-bind params (build_order_by_clause env table params.order w.1) _ _ λ o.
        ap₂ (λ t v. ok (t, v))
          (append_assoc (select_text env table params w.0 o.0)
              (int_clause (codes " LIMIT ") params.limit o.1).0
              (int_clause (codes " OFFSET ") params.offset
                (int_clause (codes " LIMIT ") params.limit o.1).1).0
            ∙ ap (λ c. select_text env table params w.0 o.0 ++ c.0)
                (clauses-page params.limit params.offset o.1)
            ∙ ap (λ t. t ++ (page_of params o.1).0)
                (sym (
                  append-nil (select_text env table params w.0 o.0 ++ [])
                  ∙ append-nil (select_text env table params w.0 o.0))))
          (ap (λ c. c.1) (clauses-page params.limit params.offset o.1))

-- Let a GET that asks for an exact count reach the table of its path, with a role and a connection, and
-- let the query for it without limit and offset be built. Then the rows it is answered with are those
-- of that query with " LIMIT $k" and " OFFSET $k" behind it for each of the two that is positive, k
-- being the number of its parameter; and the count in Content-Range is the database's count of that
-- query without them.
pub select_is_paged :
    {Rows : Type 0} (s : Server) (db : Database Rows) (r : Request) (table : Table)
    (params : QueryParams) (sql : Bytes) (args : Args) (n : ℕ) (rows : Rows)
    → r.method ≡ codes "GET"
    → parse_query_params s.env.unicode r.query ≡ params
    → db.connects_again r ≡ true
    → has_role r.role ≡ true
    → wants_count_exact s.env.unicode (parse_headers s.env.unicode r.prefer).prefer ≡ true
    → table_from_path s.tables (trim_prefix r.path s.base_path) ≡ some table
    → build_select_query s.env table (unpaged params) ≡ ok (sql, args)
    → db.count (codes "SELECT COUNT(*) FROM (" ++ sql ++ codes ") AS count_query") args ≡ some n
    → db.run (sql ++ (page_of params args).0) (args ++ (page_of params args).1) ≡ some rows
    → handle_get s db r table ≡ answer 200 rows (some (content_range params.limit params.offset n))
unfolding handle_get execute_query run_query counted ◌==◌
select_is_paged s db r table params sql args n rows get asked connection role exact named built
      counts runs =
    rw
      (
        asked,
        build_select_query-paged s.env table params,
        built,
        connection,
        role,
        run_query,
        counted,
        exact,
        named,
        built,
        counts,
        runs,
        get,
      )
      refl
