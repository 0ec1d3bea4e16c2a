-- ===== src/Pgx/Crud.antt =====
-- pkg/pgx/crud.go: the statements that insert and update a row. pgx.Identifier.Sanitize and the
-- execution of a statement are parameters. A map is walked in the order of its list.
use pigo.Base.{if◌then◌else◌, eqb, is_empty, ℕ, ◌+◌, Option, none, some, List, [], ◌∷◌, ◌++◌}
use pigo.Base.Bytes.{head_or, codes, decimal, Bytes, join}
use pigo.Base.Json.{text, Value}
use pigo.Base.Maps.{StringMap}
use pigo.Pipeline.Cdc.{other, row, nothing}
use pigo.Pipeline.Cdc.{Image}
pub mod Numbered

pub record QueryBuilder : Type 0 where
  pub schema : Bytes
  pub table : Bytes
  pub columns : List Bytes
  pub values : List Value
  pub next_index : ℕ

unfoldable pub new_query_builder : Bytes → List Bytes → QueryBuilder
new_query_builder table schemas =
    let default = codes "public" in
    record {
      schema = if is_empty (head_or [] schemas) then default else head_or [] schemas;
      table = table;
      columns = [];
      values = [];
      next_index = 1;
    }

unfoldable pub add_value : Bytes → Value → QueryBuilder → QueryBuilder
add_value column value qb = record qb {
  columns = qb.columns ++ column ∷ [];
  values = qb.values ++ value ∷ [];
}

unfoldable pub placeholder : QueryBuilder → Bytes × QueryBuilder
placeholder qb = (codes "$" ++ decimal qb.next_index, record qb { next_index = qb.next_index + 1 })

pub data CrudError : Type 0 where
  not_a_map no_conditions not_executed no_rows not_json : CrudError

-- an error, and the statement that was sent with its arguments
abbrev pub Sent : Type 0
Sent = Option CrudError × Option (Bytes × List Value)

module _ (sanitize : List Bytes → Bytes) where
  unfoldable pub table_identifier : QueryBuilder → Bytes
  table_identifier qb = sanitize (qb.schema ∷ qb.table ∷ [])

  -- the loop of InsertRow, with its columns and placeholders so far
  unfoldable pub insert_columns :
      StringMap Value
      → List Bytes
      → List Bytes
      → QueryBuilder
      → List Bytes × List Bytes × QueryBuilder
  unfolding placeholder add_value
  insert_columns [] columns placeholders qb = (columns, placeholders, qb)
  insert_columns ((k, v) ∷ m) columns placeholders qb =
      insert_columns m (columns ++ sanitize (k ∷ []) ∷ []) (placeholders ++ (placeholder qb).0 ∷ [])
        (add_value [] v (placeholder qb).1)

  -- the loops of UpdateRow, with the clauses so far
  unfoldable pub assignments :
      StringMap Value → List Bytes → QueryBuilder → List Bytes × QueryBuilder
  unfolding placeholder add_value
  assignments [] clauses qb = (clauses, qb)
  assignments ((k, v) ∷ m) clauses qb =
      assignments m (clauses ++ (sanitize (k ∷ []) ++ codes " = " ++ (placeholder qb).0) ∷ [])
        (add_value [] v (placeholder qb).1)

  -- `exec` has the rows that a statement affects, or none for an error
  module _ (exec : Bytes → List Value → Option ℕ) where
    unfoldable pub insert_map : StringMap Value → QueryBuilder → Sent
    unfolding insert_columns table_identifier join
    insert_map m qb =
        let (columns, placeholders, built) = insert_columns m [] [] qb in
        let query =
          codes "INSERT INTO "
          ++ table_identifier built
          ++ codes " ("
          ++ join (codes ", ") columns
          ++ codes ") VALUES ("
          ++ join (codes ", ") placeholders
          ++ codes ")" in
        (
          (elim (exec query built.values) [ none ↦ some not_executed | some n ↦ none ]),
          some (query, built.values),
        )

    unfoldable pub insert_row : Bytes → Image → List Bytes → Sent
    unfolding insert_map new_query_builder
    insert_row table (row m) schemas = insert_map m (new_query_builder table schemas)
    insert_row table nothing schemas = (some not_a_map, none)
    insert_row table (other v) schemas = (some not_a_map, none)

    unfoldable pub update_map : StringMap Value → StringMap Value → QueryBuilder → Sent
    unfolding assignments table_identifier join
    update_map m conditions qb =
        let (set_clauses, set_qb) = assignments m [] qb in
        let (where_clauses, built) = assignments conditions [] set_qb in
        let query =
          codes "UPDATE "
          ++ table_identifier built
          ++ codes " SET "
          ++ join (codes ", ") set_clauses
          ++ codes " WHERE "
          ++ join (codes " AND ") where_clauses in
        if is_empty where_clauses then (some no_conditions, none) else (
          (elim (exec query built.values) [
            | none ↦ some not_executed
            | some n ↦ if eqb n 0 then some no_rows else none
          ]),
          some (query, built.values),
        )

    unfoldable pub update_row : Bytes → Image → StringMap Value → List Bytes → Sent
    unfolding update_map new_query_builder
    update_row table (row m) conditions schemas =
        update_map m conditions (new_query_builder table schemas)
    update_row table nothing conditions schemas = (some not_a_map, none)
    update_row table (other v) conditions schemas = (some not_a_map, none)

    -- The JSON of a row is decoded into a map: null leaves it nil, which is an empty one here.
    module _ (parse_json : Bytes → Option (StringMap Value)) where
      unfoldable pub insert_row_json : Bytes → Bytes → List Bytes → Sent
      unfolding insert_row
      insert_row_json table json schemas = elim (parse_json json) [
        | none ↦ (some not_json, none)
        | some m ↦ insert_row table (row m) schemas
      ]

      unfoldable pub update_row_json : Bytes → Bytes → StringMap Value → List Bytes → Sent
      unfolding update_row
      update_row_json table json conditions schemas = elim (parse_json json) [
        | none ↦ (some not_json, none)
        | some m ↦ update_row table (row m) conditions schemas
      ]
