-- ===== src/Replication/Messages/Rows.antt =====
-- pkg/pglogrepl/process_v2.go: the values that a tuple has under the names of its columns.
use pigo.Base.{
  any, length, zero, suc, ◌≤◌, ◌≡◌, refl, ◌∙◌, false, some, List, [], ◌∷◌, arith, get_elem?,
}
use pigo.Base.Bytes.{lookup, ◌==◌}
use pigo.Base.Int.{ℤ}
use pigo.Base.Json.{Value}
use pigo.Base.Maps.{StringMap, assign, lookup-assign_self, lookup-assign_ne}
use pigo.Pipeline.Cdc.{op_create, Event, with_after, row}
use pigo.Replication.Messages.{
  Column, Relation, Cell, TypeMap, Clock, decode_column, row_values, find_relation, handle_insert,
  source_of, event_of, values_of, ℕ, Bytes,
}
use pigo.Pipeline.Cdc.{new_event, new_source}

-- no two columns have one name
abbrev pub IsDistinct : List Column → Type 0
IsDistinct [] = Unit
IsDistinct (c ∷ cs) = (any (λ d. d.name == c.name) cs ≡ false) × IsDistinct cs

-- A tuple that is no longer than the relation has values.
row_values-total :
    (types : TypeMap) (columns : List Column) (cells : List Cell) (values : StringMap Value)
    → length cells ≤ length columns
    → (out : StringMap Value) × (row_values types columns cells values ≡ some out)
unfolding row_values
row_values-total types [] [] values h = (values, refl)
row_values-total types [] (c ∷ cs) values h = absurd (omega (arith, h))
row_values-total types (k ∷ ks) [] values h = (values, refl)
row_values-total types (k ∷ ks) (c ∷ cs) values h =
    let shorter : length cs ≤ length ks = omega (arith, h) in
    row_values-total types ks cs (assign k.name (decode_column types c k.data_type) values) shorter

-- A name that no later column has keeps its value.
row_values-keeps :
    (types : TypeMap) (columns : List Column) (cells : List Cell) (values out : StringMap Value)
    (name : Bytes)
    → any (λ d. d.name == name) columns ≡ false
    → row_values types columns cells values ≡ some out
    → lookup name out ≡ lookup name values
unfolding row_values
row_values-keeps types [] [] values out name h e = cc
row_values-keeps types [] (c ∷ cs) values out name h e = cc
row_values-keeps types (k ∷ ks) [] values out name h e = cc
row_values-keeps types (k ∷ ks) (c ∷ cs) values out name h e =
    let other : (k.name == name) ≡ false = ground (arith, h) in
    row_values-keeps types ks cs (assign k.name (decode_column types c k.data_type) values) out name
      (ground (arith, h)) e
    ∙ lookup-assign_ne k.name name (decode_column types c k.data_type) values other

row_values-finds :
    (types : TypeMap) (columns : List Column) (cells : List Cell) (values out : StringMap Value)
    (i : ℕ) (column : Column) (cell : Cell)
    → IsDistinct columns
    → get_elem? columns i ≡ some column
    → get_elem? cells i ≡ some cell
    → row_values types columns cells values ≡ some out
    → lookup column.name out ≡ some (decode_column types cell column.data_type)
unfolding row_values
row_values-finds types [] cells values out i column cell d hk hc e = cc
row_values-finds types (k ∷ ks) [] values out i column cell d hk hc e = cc
row_values-finds types (k ∷ ks) (c ∷ cs) values out zero column cell d hk hc e =
    let same_column : k ≡ column = ground arith in
    let same_cell : c ≡ cell = ground arith in
    rw
      (
        ← same_column,
        ← same_cell,
        row_values-keeps types ks cs (assign k.name (decode_column types c k.data_type) values) out
            k.name d.0 e,
      )
      (lookup-assign_self k.name (decode_column types c k.data_type) values)
row_values-finds types (k ∷ ks) (c ∷ cs) values out (suc i) column cell d hk hc e =
    row_values-finds types ks cs (assign k.name (decode_column types c k.data_type) values) out i
      column cell d.1 hk hc e

-- The event of an inserted row whose relation is known and has distinct column names has as its image
-- a row in which the name of a column has the cell that stands at the column's index, decoded by the
-- column's type, for a tuple that is no longer than the relation. The event's source has the
-- relation's schema and table.
pub inserted_row_is_decoded :
    (nil_fields : ℕ) (types : TypeMap) (clock : Clock) (server db : Bytes)
    (relations : List Relation) (id xid : ℕ) (lsn : ℤ) (rel : Relation) (cells : List Cell) (i : ℕ)
    (column : Column) (cell : Cell)
    → find_relation id relations ≡ some rel
    → IsDistinct rel.columns
    → length cells ≤ length rel.columns
    → get_elem? rel.columns i ≡ some column
    → get_elem? cells i ≡ some cell
    → (values : StringMap Value) × (event : Event) × (handle_insert nil_fields types clock server db
          relations id xid
          (some cells)
          lsn
        ≡ some event)
      × (event.payload.after ≡ row values)
      × (event.payload.source.schema ≡ rel.namespace)
      × (event.payload.source.table ≡ rel.name)
      × (lookup column.name values ≡ some (decode_column types cell column.data_type))
unfolding handle_insert values_of source_of event_of new_event new_source
inserted_row_is_decoded nil_fields types clock server db relations id xid lsn rel cells i column
      cell known unique fits hk hc =
    let (values, e) = row_values-total types rel.columns cells [] fits in
    (
      values,
      with_after (row values) (
          event_of nil_fields types clock server db
            (source_of nil_fields types clock server db rel xid lsn) op_create),
      rw (handle_insert, known, e) refl,
      refl,
      refl,
      refl,
      row_values-finds types rel.columns cells [] values i column cell unique hk hc e,
    )
