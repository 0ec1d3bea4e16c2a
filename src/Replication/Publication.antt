-- ===== src/Replication/Publication.antt =====
-- pkg/pglogrepl/stream.go: the statements that create or alter a publication.
-- The server's answers are parameters.
use pigo.Base.{
  ℕ, ◌+◌, Bool, true, false, not, Option, none, some, List, [], ◌∷◌, ◌++◌, if◌then◌else◌, is_empty,
  length, take, ltb, ◌⊎◌, ◌||◌, inl, inr, ◌&&◌, is_some,
}
use pigo.Base.Bytes.{Bytes, codes, ◌==◌, join, has_prefix, head_or}
use pigo.Replication.Config.{Config}
pub mod Tables
use pigo.Base.Int.{ltℤ, ℤ, pos}
use pigo.Base.Number.{atoi}

pub record TablePattern : Type 0 where
  pub all_tables : Bool
  pub schemas : List Bytes
  pub tables : List Bytes

-- strings.LastIndex of ".*", from the index i on
unfoldable pub last_index_from : ℕ → Bytes → Option ℕ
unfolding has_prefix
last_index_from i [] = none
last_index_from i (c ∷ s) = elim (last_index_from (i + 1) s) [
  | some j ↦ some j
  | none ↦ if has_prefix (c ∷ s) (codes ".*") then some i else none
]

-- the schema of a pattern such as audit.*, which has a name before the last ".*"
unfoldable pub schema_of_pattern : Bytes → Option Bytes
unfolding last_index_from
schema_of_pattern p = elim (last_index_from 0 p) [
  | none ↦ none
  | some i ↦ if ltb 0 i then some (take i p) else none
]

-- the loop over the patterns, with what it has collected
unfoldable pub parse_patterns : List Bytes → TablePattern → TablePattern
unfolding schema_of_pattern
parse_patterns [] tp = tp
parse_patterns (p ∷ ps) tp =
    let with_schemas : TablePattern = parse_patterns ps (elim (schema_of_pattern p) [
      | some schema ↦ record tp { schemas = tp.schemas ++ schema ∷ [] }
      | none ↦ record tp { tables = tp.tables ++ p ∷ [] }
    ]) in
    if p == codes "*" || p == codes "*.*"
    then record { all_tables = true; schemas = []; tables = [] }
    else with_schemas

unfoldable pub parse_publication_tables : List Bytes → TablePattern
unfolding parse_patterns
parse_publication_tables patterns =
    parse_patterns patterns (record { all_tables = false; schemas = []; tables = [] })

pub data PublicationError : Type 0 where
  bad_table bad_column not_queried no_version server_too_old not_executed : PublicationError

-- conn.Exec(sql).ReadAll(): its results, each with rows of columns, or none for an error
abbrev pub Database : Type 0
Database = Bytes → Option (List (List (List Bytes)))

-- rows[0].Rows[0][0], where there is such a row
abbrev pub first_row : List (List (List Bytes)) → Option (List Bytes)
first_row ((row ∷ rows) ∷ results) = some row
first_row ([] ∷ results) = none
first_row [] = none

-- a row of one column, as the queries here have
abbrev pub first_column : List Bytes → Bytes
first_column row = head_or [] row

unfoldable pub check_exists : Database → Bytes → Bytes → Bytes → PublicationError ⊎ Bool
check_exists db table column value =
    if not (table == codes "pg_publication") && not (table == codes "pg_replication_slots")
    then inl bad_table
    else if not (column == codes "pubname") && not (column == codes "slot_name")
    then inl bad_column
    else elim (db (
        codes "SELECT EXISTS (SELECT 1 FROM "
        ++ table
        ++ codes " WHERE "
        ++ column
        ++ codes " = '"
        ++ value
        ++ codes "')")) [
          | none ↦ inl not_queried
          | some results ↦
              inr (elim (first_row results) [
                | none ↦ false
                | some row ↦ first_column row == codes "t"
              ])
        ]

unfoldable pub server_version_num : Database → Option ℤ
unfolding atoi
server_version_num db = elim (db (codes "SHOW server_version_num")) [
  | none ↦ none
  | some results ↦ elim (first_row results) [ none ↦ none | some row ↦ atoi (first_column row) ]
]

-- the parameter for generated columns, if any
unfoldable pub generated_param : Database → Config → PublicationError ⊎ List Bytes
unfolding server_version_num
generated_param db cfg =
    if is_empty cfg.publish_generated_columns then inr [] else elim (server_version_num db) [
      | none ↦ inl no_version
      | some v ↦
          if ltℤ v (pos 180000)
          then inl server_too_old
          else inr (
              (codes "publish_generated_columns = '" ++ cfg.publish_generated_columns ++ codes "'")
              ∷ [])
    ]

unfoldable pub publication_objects : TablePattern → Bytes
unfolding join
publication_objects tp =
    if tp.all_tables
    then codes " FOR ALL TABLES"
    else if ltb 0 (length tp.schemas)
    then codes " FOR TABLES IN SCHEMA " ++ join (codes ", ") tp.schemas
    else if ltb 0 (length tp.tables)
    then codes " FOR TABLE " ++ join (codes ", ") tp.tables
    else []

unfoldable pub create_statement : Config → List Bytes → Bytes
unfolding publication_objects parse_publication_tables join
create_statement cfg generated =
    let ops =
      if is_empty cfg.ops
      then []
      else (codes "publish = '" ++ join (codes ", ") cfg.ops ++ codes "'") ∷ [] in
    let root = if cfg.partition_root then codes "publish_via_partition_root = true" ∷ [] else [] in
    let params = ops ++ root ++ generated in
    codes "CREATE PUBLICATION "
    ++ cfg.publication
    ++ publication_objects (parse_publication_tables cfg.tables)
    ++ (if is_empty params then [] else codes " WITH (" ++ join (codes ", ") params ++ codes ")")

-- the error of a statement that is executed
abbrev pub executed : Database → Bytes → Option PublicationError
executed db sql = if is_some (db sql) then none else some not_executed

unfoldable pub reconcile_publication : Database → Config → Option PublicationError
unfolding generated_param join
reconcile_publication db cfg = elim (generated_param db cfg) [
  | inl e ↦ some e
  | inr params ↦
      if is_empty params
      then none
      else executed db (
          codes "ALTER PUBLICATION "
          ++ cfg.publication
          ++ codes " SET ("
          ++ join (codes ", ") params
          ++ codes ")")
]

unfoldable pub ensure_publication : Database → Config → Option PublicationError
unfolding check_exists reconcile_publication generated_param create_statement
ensure_publication db cfg =
    elim (check_exists db (codes "pg_publication") (codes "pubname") cfg.publication) [
      | inl e ↦ some e
      | inr true ↦ reconcile_publication db cfg
      | inr false ↦ elim (generated_param db cfg) [
        | inl e ↦ some e
        | inr generated ↦ executed db (create_statement cfg generated)
      ]
    ]
