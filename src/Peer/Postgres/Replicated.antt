-- ===== src/Peer/Postgres/Replicated.antt =====
-- Changes that pkg/pglogrepl/process_v2.go receives, as pkg/pipeline/peer/pg/peer.go writes them.
use mathlib.Core.Path.{subst}
use pigo.Peer.Postgres.{is_nil}
use pigo.Pipeline.Cdc.{no_event, op_delete, nothing}
use pigo.Base.{Option-cases, inl, inr, arith}
use pigo.Pipeline.Cdc.{with_after, new_event, op_update, with_before, new_source}
use pigo.Base.{is_empty, ℕ, ◌≡◌, refl, Bool, true, false, Option, none, some, List, [], ◌∷◌, ◌++◌}
use pigo.Base.Bytes.{lookup, codes, Bytes, ◌==◌}
use pigo.Base.Int.{ℤ}
use pigo.Base.Json.{Value}
use pigo.Base.Maps.{StringMap}
use pigo.Pgx.Schema.{Table}
use pigo.Pipeline.Cdc.{row, Event}
use pigo.Replication.Messages.{
  Relation, Cell, TypeMap, Clock, find_relation, handle_update, handle_delete, source_of, event_of,
  values_or_empty, values_of,
}
use pigo.Peer.Postgres.{
  key_conditions, publish_update, publish_operation, publish_event, refused, no_primary_key,
  not_connected,
}

-- no primary key is in an empty row
no_key_conditions : (pks : List Bytes) → key_conditions pks (row []) [] ≡ some []
unfolding key_conditions lookup
no_key_conditions [] = refl
no_key_conditions (pk ∷ pks) = no_key_conditions pks

without_keys :
    (sanitize : List Bytes → Bytes) (exec : Bytes → List Value → Option ℕ)
    (tables : StringMap Table) (table : Table) (e : Event)
    → e.payload.before ≡ row []
    → is_nil e.payload.after ≡ false
    → is_empty e.payload.source.table ≡ false
    → e.payload.op ≡ op_update
    → lookup (e.payload.source.schema ++ codes "." ++ e.payload.source.table) tables ≡ some table
    → publish_event sanitize exec true tables e ≡ (refused no_primary_key, none)
unfolding publish_event publish_operation publish_update ◌==◌
without_keys sanitize exec tables table e before after named op cached =
    rw (after, named, cached, op, before, no_key_conditions table.primary_keys) refl

-- A replicated update that comes without the old row, as it does unless the replica identity of its
-- table is full or a key changes, is never written to a peer whose cache has the table: the peer
-- refuses it for want of a primary key and sends nothing.
pub update_without_old_row_is_refused :
    (nil_fields : ℕ) (types : TypeMap) (clock : Clock) (server db : Bytes)
    (relations : List Relation) (id xid : ℕ) (new : Option (List Cell)) (lsn : ℤ) (rel : Relation)
    (event : Event) (sanitize : List Bytes → Bytes) (exec : Bytes → List Value → Option ℕ)
    (tables : StringMap Table) (table : Table)
    → find_relation id relations ≡ some rel
    → handle_update nil_fields types clock server db relations id xid none new lsn ≡ some event
    → is_empty rel.name ≡ false
    → lookup (rel.namespace ++ codes "." ++ rel.name) tables ≡ some table
    → publish_event sanitize exec true tables event ≡ (refused no_primary_key, none)
unfolding handle_update values_or_empty event_of source_of new_event new_source
update_without_old_row_is_refused nil_fields types clock server db relations id xid new lsn rel
      event sanitize exec tables table known handled named cached =
    elim (Option-cases (values_or_empty nil_fields types clock server db rel new)) [
      | inl e ↦ let absent : none ≡ some event = rw (handle_update, known, e) at handled in cc
      | inr (values, e) ↦
          let built = with_after (row values) (
            with_before (row []) (
              event_of nil_fields types clock server db
                (source_of nil_fields types clock server db rel xid lsn) op_update)) in
          let made : some built ≡ some event = rw (handle_update, known, e) at handled in
          let same : built ≡ event = ground arith in
          subst (λ e. publish_event sanitize exec true tables e ≡ (refused no_primary_key, none))
            same (without_keys sanitize exec tables table built refl refl named refl cached)
    ]

deleted_has_no_after :
    (nil_fields : ℕ) (types : TypeMap) (clock : Clock) (server db : Bytes)
    (relations : List Relation) (id xid : ℕ) (old : Option (List Cell)) (lsn : ℤ) (event : Event)
    → handle_delete nil_fields types clock server db relations id xid old lsn ≡ some event
    → event.payload.after ≡ nothing
unfolding handle_delete event_of new_event no_event
deleted_has_no_after nil_fields types clock server db relations id xid old lsn event handled =
    elim (Option-cases (find_relation id relations)) [
      | inl e ↦
          let made : some (no_event nil_fields) ≡ some event = rw (handle_delete, e) at handled in
          let same : no_event nil_fields ≡ event = ground arith in rw (← same) refl
      | inr (rel, e) ↦ elim (Option-cases (values_of nil_fields types clock server db rel old)) [
        | inl none_of ↦
            let absent : none ≡ some event = rw (handle_delete, e, none_of) at handled in cc
        | inr (values, some_of) ↦
            let built = with_before (row values) (
              event_of nil_fields types clock server db
                (source_of nil_fields types clock server db rel xid lsn) op_delete) in
            let made : some built ≡ some event = rw (handle_delete, e, some_of) at handled in
            let same : built ≡ event = ground arith in rw (← same) refl
      ]
    ]

-- A replicated delete is refused by the peer as if it were not connected, whatever its pool and tables.
pub delete_is_refused :
    (nil_fields : ℕ) (types : TypeMap) (clock : Clock) (server db : Bytes)
    (relations : List Relation) (id xid : ℕ) (old : Option (List Cell)) (lsn : ℤ) (event : Event)
    (sanitize : List Bytes → Bytes) (exec : Bytes → List Value → Option ℕ) (has_pool : Bool)
    (tables : StringMap Table)
    → handle_delete nil_fields types clock server db relations id xid old lsn ≡ some event
    → publish_event sanitize exec has_pool tables event ≡ (refused not_connected, none)
unfolding publish_event
delete_is_refused nil_fields types clock server db relations id xid old lsn event sanitize exec
      has_pool tables handled =
    rw
      (deleted_has_no_after nil_fields types clock server db relations id xid old lsn event handled)
      (ground arith)
