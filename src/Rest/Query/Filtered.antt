-- ===== src/Rest/Query/Filtered.antt =====
-- pkg/rest/query.go: the WHERE clause of DELETE and UPDATE.
use mathlib.Core.Path.{subst}
use pigo.Base.{
  ◌∙◌, ◌≡◌, refl, Bool, true, false, Option, List, [], ◌++◌, is_empty, ap, if◌then◌else◌, map,
}
use pigo.Base.Bytes.{Bytes, codes, join}
use pigo.Base.Json.{Value}
use pigo.Pgx.Schema.{Table}
use pigo.Rest.Args.{Args}
use pigo.Rest.Error.{Result, ok, err, Error, nothing_to_update}
use pigo.Rest.Filter.Sql.{Env, build_where_clause}
use pigo.Rest.Filter.Where.{
  Given-self, Rendered, IsClause, Given, Given-bind, build_where_clause-Given,
}
use pigo.Rest.Headers.{Headers}
use pigo.Rest.Query.{
  QueryParams, StringMap, returning_clause, column_values, sorted, clause, build_delete_query,
  build_update_query,
}

-- A statement `head` ++ the filters ++ `tail`: behind WHERE, where there are filters, one condition for
-- each, rendered behind the parameters `args` and joined with AND.
abbrev pub IsFiltered : Env → Table → Bytes → Bytes → Args → QueryParams → Bytes × Args → Type 0
IsFiltered env table head tail args params p =
    (conds : List Bytes) × Rendered env table params.filters args conds p.1
    × (p.0
        ≡ head
          ++ (if is_empty params.filters then [] else codes " WHERE " ++ join (codes " AND ") conds)
          ++ tail)

Given-else :
    {A : Type 0} (P : A → Type 0) (e : Error) (r : Result A) (b : Bool)
    → Given P r
    → Given P (if b then err e else r)
Given-else P e r true h = tt
Given-else P e r false h = h

clause-text :
    (conds : Bytes) (b : Bool)
    → is_empty conds ≡ b
    → clause (codes " WHERE ") conds ≡ (if b then [] else codes " WHERE " ++ conds)
clause-text conds b h = rw (← h) refl

-- a statement around the clause of its filters
around_clause :
    (env : Env) (table : Table) (head tail : Bytes) (args : Args) (params : QueryParams)
    (p : Bytes × Args)
    → IsClause env table params.filters args p
    → is_empty p.0 ≡ is_empty params.filters
    → IsFiltered env table head tail args params (head ++ clause (codes " WHERE ") p.0 ++ tail, p.1)
around_clause env table head tail args params p (conds, rendered, joined) alike = (
  conds,
  rendered,
  ap (λ s. head ++ s ++ tail)
      (clause-text p.0 _ alike
        ∙ ap (λ s. if is_empty params.filters then [] else codes " WHERE " ++ s) joined),
)

-- the statement up to its WHERE clause
abbrev pub delete_head : Env → Table → Bytes
delete_head env table = codes "DELETE FROM " ++ env.quote_qualified table.schema table.name

build_delete_query-Given :
    (env : Env) (table : Table) (params : QueryParams) (headers : Option Headers)
    → Given
        (IsFiltered env table
          (delete_head env table)
          (returning_clause env table headers)
          []
          params)
        (build_delete_query env table params headers)
unfolding build_delete_query
build_delete_query-Given env table params headers =
    Given-bind
      (λ p. IsClause env table params.filters [] p × (is_empty p.0 ≡ is_empty params.filters)) _
      (build_where_clause env table params.filters []) _
      (build_where_clause-Given env table params.filters [])
      λ p h.
        around_clause env table (delete_head env table) (returning_clause env table headers) []
          params p h.0 h.1

-- the statement up to its WHERE clause
abbrev pub update_head : Env → Table → List (Bytes × Bytes) → Bytes
update_head env table columns =
    codes "UPDATE "
    ++ env.quote_qualified table.schema table.name
    ++ codes " SET "
    ++ join (codes ", ") (map (λ c. c.0 ++ codes " = " ++ c.1) columns)

-- An UPDATE sets the columns that the body has, and its filters' parameters follow the body's.
abbrev pub IsUpdate :
    Env → Table → StringMap Value → Option Headers → QueryParams → Bytes × Args → Type 0
IsUpdate env table data_map headers params p =
    (columns : List (Bytes × Bytes)) × (args : Args) × (column_values env table (sorted data_map) []
      ≡ ok (columns, args))
    × IsFiltered env table (update_head env table columns) (returning_clause env table headers) args
        params p

build_update_query-Given :
    (env : Env) (table : Table) (data_map : StringMap Value) (params : QueryParams)
    (headers : Option Headers)
    → Given
        (IsUpdate env table data_map headers params)
        (build_update_query env table data_map params headers)
unfolding build_update_query
build_update_query-Given env table data_map params headers =
    Given-bind (λ c. column_values env table (sorted data_map) [] ≡ ok c)
      (IsUpdate env table data_map headers params) (column_values env table (sorted data_map) []) _
      (Given-self (column_values env table (sorted data_map) []))
      λ c values.
        Given-else (IsUpdate env table data_map headers params) nothing_to_update _ (is_empty c.0) (
          Given-bind
            (λ p.
              IsClause env table params.filters c.1 p × (is_empty p.0 ≡ is_empty params.filters))
            (IsUpdate env table data_map headers params)
            (build_where_clause env table params.filters c.1) _
            (build_where_clause-Given env table params.filters c.1)
            λ p h. (
              c.0,
              c.1,
              values,
              around_clause env table (update_head env table c.0)
                  (returning_clause env table headers) c.1 params p h.0 h.1,
            ))

-- An UPDATE that is built sets the columns of the body, and a DELETE that is built deletes from the
-- table. Behind that, each has WHERE and one condition for every filter of the request, the rendering
-- of that filter's tree behind the parameters so far, joined with AND, or no WHERE where the request
-- has no filter; and then the RETURNING clause.
pub writes_keep_filters :
    (env : Env) (table : Table) (data_map : StringMap Value) (params : QueryParams)
    (headers : Option Headers) (update_sql delete_sql : Bytes) (update_args delete_args : Args)
    → build_update_query env table data_map params headers ≡ ok (update_sql, update_args)
    → build_delete_query env table params headers ≡ ok (delete_sql, delete_args)
    → IsUpdate env table data_map headers params (update_sql, update_args)
      × IsFiltered env table
          (delete_head env table)
          (returning_clause env table headers)
          []
          params
          (delete_sql, delete_args)
writes_keep_filters env table data_map params headers update_sql delete_sql update_args delete_args
      hu hd =
    (
      subst (Given _) hu (build_update_query-Given env table data_map params headers),
      subst (Given _) hd (build_delete_query-Given env table params headers),
    )
