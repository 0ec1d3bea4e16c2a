-- ===== src/Peer/Postgres.antt =====
-- pkg/pipeline/peer/pg/peer.go: events written to a PostgreSQL database.
use pigo.Base.{
  if◌then◌else◌, is_empty, ℕ, Bool, true, false, not, ◌||◌, Option, none, some, List, [], ◌∷◌, ◌++◌,
}
use pigo.Base.Bytes.{codes, Bytes, ◌==◌, lookup}
use pigo.Base.Json.{Value}
use pigo.Base.Maps.{assign, StringMap}
use pigo.Pipeline.Cdc.{op_truncate, op_delete, nothing, op_update, op_create, row, other}
use pigo.Pipeline.Cdc.{Event, Image}
use pigo.Pgx.Schema.{Table}
use pigo.Pgx.Crud.{CrudError, Sent, insert_row, update_row}
pub mod Replicated

pub data PubError : Type 0 where
  not_connected no_table_name unknown_table no_before no_primary_key unknown_operation : PubError
  not_written : CrudError → PubError

-- what Pub returns, or that it panics
pub data Published : Type 0 where
  published panicked : Published
  refused : PubError → Published

abbrev pub written : Sent → Published × Option (Bytes × List Value)
written (none, statement) = (published, statement)
written (some e, statement) = (refused (not_written e), statement)

-- The row before the update at a primary key. A value that is no map panics.
unfoldable pub key_conditions : List Bytes → Image → StringMap Value → Option (StringMap Value)
unfolding lookup assign
key_conditions [] before conditions = some conditions
key_conditions (pk ∷ pks) (row m) conditions =
    key_conditions pks (row m)
      (elim (lookup pk m) [ none ↦ conditions | some v ↦ assign pk v conditions ])
key_conditions (pk ∷ pks) nothing conditions = none
key_conditions (pk ∷ pks) (other v) conditions = none

abbrev pub is_nil : Image → Bool
is_nil nothing = true
is_nil (row m) = false
is_nil (other v) = false

module _ (sanitize : List Bytes → Bytes) (exec : Bytes → List Value → Option ℕ) where
  -- the case of an update
  unfoldable pub publish_update : Table → Event → Published × Option (Bytes × List Value)
  unfolding key_conditions update_row
  publish_update table e =
      if is_nil e.payload.before
      then (refused no_before, none)
      else elim (key_conditions table.primary_keys e.payload.before []) [
        | none ↦ (panicked, none)
        | some conditions ↦
            if is_empty conditions
            then (refused no_primary_key, none)
            else written (
                update_row sanitize exec e.payload.source.table e.payload.after conditions
                  (e.payload.source.schema ∷ []))
      ]

  unfoldable pub publish_operation : Table → Event → Published × Option (Bytes × List Value)
  unfolding insert_row publish_update
  publish_operation table e =
      if e.payload.op == op_create
      then written (
          insert_row sanitize exec e.payload.source.table e.payload.after
            (e.payload.source.schema ∷ []))
      else if e.payload.op == op_update
      then publish_update table e
      else if e.payload.op == op_delete || e.payload.op == op_truncate
      then (published, none)
      else (refused unknown_operation, none)

  -- Pub, with whether there is a pool, and the tables that the schema cache sent last. Beside what it
  -- returns stands the statement that it has sent.
  unfoldable pub publish_event :
      Bool → StringMap Table → Event → Published × Option (Bytes × List Value)
  unfolding publish_operation lookup
  publish_event has_pool tables e =
      if not has_pool || is_nil e.payload.after
      then (refused not_connected, none)
      else if is_empty e.payload.source.table
      then (refused no_table_name, none)
      else elim (lookup (e.payload.source.schema ++ codes "." ++ e.payload.source.table) tables) [
        | none ↦ (refused unknown_table, none)
        | some table ↦ publish_operation table e
      ]
