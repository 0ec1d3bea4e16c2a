-- ===== src/Replication/Messages.antt =====
-- pkg/pglogrepl/process_v2.go, util.go and codec.go: the messages of a change stream as events.
-- Package pglogrepl parses a message, and package pgtype decodes a column: both are parameters.
use pigo.Base.{if◌then◌else◌, eqb, length, find, ◌%◌, Option, none, some, List, [], ◌∷◌, get_elem?}
use pigo.Base.Bytes.{codes}
use pigo.Base.Json.{null, text}
use pigo.Base.Maps.{StringMap}
use pigo.Pipeline.Cdc.{
  op_create, with_before, with_table, with_schema, op_truncate, with_database, row, with_after,
  op_update, op_delete,
}
use pigo.Pipeline.Process.Workers.{start}
use pigo.Pipeline.Cdc.{
  Event, no_event, new_event, new_source, Source, with_event_timestamp, with_timestamp,
  with_transaction, with_operation, with_source,
}
pub mod Rows
use pigo.Base.Bytes.{Bytes}
use pigo.Base.Maps.{assign}
use Prim.Native.Nat.{ℕ}
use pigo.Base.Int.{ℤ, pos}
use pigo.Base.Json.{Value}

-- pglogrepl.RelationMessageColumn: a column's name, and the OID of its type
pub record Column : Type 0 where
  pub name : Bytes
  pub data_type : ℕ

pub record Relation : Type 0 where
  pub id : ℕ
  pub namespace : Bytes
  pub name : Bytes
  pub columns : List Column

-- pglogrepl.TupleDataColumn: the byte of its kind, and its data
pub record Cell : Type 0 where
  pub kind : ℕ
  pub bytes : Bytes

-- A tuple may be nil. An update has an old and a new one.
pub data Message : Type 0 where
  relation : Relation → Message
  inserted : (id xid : ℕ) (tuple : Option (List Cell)) → Message
  updated : (id xid : ℕ) (old new : Option (List Cell)) → Message
  deleted : (id xid : ℕ) (old : Option (List Cell)) → Message
  truncated : (xid : ℕ) → Message
  stream_start stream_stop unhandled : Message

-- the map of the relations by their id
unfoldable pub put_relation : Relation → List Relation → List Relation
put_relation r [] = r ∷ []
put_relation r (s ∷ ss) = if eqb s.id r.id then r ∷ ss else s ∷ put_relation r ss

unfoldable pub find_relation : ℕ → List Relation → Option Relation
find_relation id relations = find (λ r. eqb r.id id) relations

-- pgtype.Map: the codec of a type with its text format, if it is registered; none is an error
abbrev pub TypeMap : Type 0
TypeMap = ℕ → Option (Bytes → Option Value)

-- the pgtype.UUIDOID of the codec that newTypeMap registers on the map of package pgtype
unfoldable pub new_type_map : TypeMap → TypeMap
new_type_map builtin oid = if eqb oid 2950 then some (λ src. some (text src)) else builtin oid

unfoldable pub decode_text : TypeMap → Bytes → ℕ → Option Value
decode_text types src oid = elim (types oid) [ some decode ↦ decode src | none ↦ some (text src) ]

unfoldable pub decode_column : TypeMap → Cell → ℕ → Value
unfolding decode_text
decode_column types cell oid =
    if eqb cell.kind b'n'
    then null
    else if eqb cell.kind b'u'
    then null
    else if eqb cell.kind b't'
    then elim (decode_text types cell.bytes oid) [ none ↦ null | some v ↦ v ]
    else null

-- The loop over a tuple's cells beside the relation's columns. More cells than columns, an index
-- out of range of rel.Columns, are none: a panic.
unfoldable pub row_values :
    TypeMap → List Column → List Cell → StringMap Value → Option (StringMap Value)
row_values types columns [] values = some values
row_values types [] (cell ∷ cells) values = none
row_values types (column ∷ columns) (cell ∷ cells) values =
    row_values types columns cells
      (assign column.name (decode_column types cell column.data_type) values)

-- The time is read twice, for the source and for the event.
pub record Clock : Type 0 where
  pub source : ℤ
  pub event : ℤ

-- `nil_fields` is the nil slice of a schema's fields.
module _ (nil_fields : ℕ) (types : TypeMap) (clock : Clock) (server db : Bytes) where
  unfoldable pub source_of : Relation → ℕ → ℤ → Source
  unfolding new_source
  source_of rel xid lsn = with_timestamp clock.source (
      with_transaction (pos xid) lsn (
        with_table rel.name
          (with_schema rel.namespace (with_database db (new_source (codes "postgresql") server)))))

  unfoldable pub event_of : Source → Bytes → Event
  unfolding new_event
  event_of source op =
      with_event_timestamp clock.event
        (with_operation op (with_source source (new_event nil_fields)))

  -- msg.Tuple.Columns of a nil tuple panics
  unfoldable pub values_of : Relation → Option (List Cell) → Option (StringMap Value)
  unfolding row_values
  values_of rel none = none
  values_of rel (some cells) = row_values types rel.columns cells []

  -- if msg.OldTuple != nil
  unfoldable pub values_or_empty : Relation → Option (List Cell) → Option (StringMap Value)
  unfolding row_values
  values_or_empty rel none = some []
  values_or_empty rel (some cells) = row_values types rel.columns cells []

  unfoldable pub handle_insert : List Relation → ℕ → ℕ → Option (List Cell) → ℤ → Option Event
  unfolding find_relation values_of source_of event_of no_event
  handle_insert relations id xid tuple lsn = elim (find_relation id relations) [
    | none ↦ some (no_event nil_fields)
    | some rel ↦ elim (values_of rel tuple) [
      | none ↦ none
      | some values ↦ some (with_after (row values) (event_of (source_of rel xid lsn) op_create))
    ]
  ]

  unfoldable pub handle_update :
      List Relation → ℕ → ℕ → Option (List Cell) → Option (List Cell) → ℤ → Option Event
  unfolding find_relation values_or_empty source_of event_of no_event
  handle_update relations id xid old new lsn = elim (find_relation id relations) [
    | none ↦ some (no_event nil_fields)
    | some rel ↦ elim (values_or_empty rel old) [
      | none ↦ none
      | some old_values ↦ elim (values_or_empty rel new) [
        | none ↦ none
        | some new_values ↦ some (
            with_after (row new_values)
              (with_before (row old_values) (event_of (source_of rel xid lsn) op_update)))
      ]
    ]
  ]

  unfoldable pub handle_delete : List Relation → ℕ → ℕ → Option (List Cell) → ℤ → Option Event
  unfolding find_relation values_of source_of event_of no_event
  handle_delete relations id xid old lsn = elim (find_relation id relations) [
    | none ↦ some (no_event nil_fields)
    | some rel ↦ elim (values_of rel old) [
      | none ↦ none
      | some values ↦ some (with_before (row values) (event_of (source_of rel xid lsn) op_delete))
    ]
  ]

  -- The walk over the relations stops at the first, which `start` chooses, as Go may.
  unfoldable pub handle_truncate : (List Relation → ℕ) → List Relation → ℕ → ℤ → Event
  unfolding source_of event_of no_event
  handle_truncate start relations xid lsn =
      elim (get_elem? relations (start relations % length relations)) [
        | none ↦ no_event nil_fields
        | some rel ↦ event_of (source_of rel xid lsn) op_truncate
      ]
