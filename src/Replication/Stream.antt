-- ===== src/Replication/Stream.antt =====
-- pkg/pglogrepl/stream.go and processV2 of process_v2.go: the loop that receives changes. The
-- connection is a parameter: what it answers to each turn. The channel of the events is a list with
-- room; Go waits here while its buffer is full.
pub mod Progress
use pigo.Base.{
  ltb, if◌then◌else◌, eqb, ℕ, Bool, true, false, Option, none, some, List, [], ◌∷◌, ◌++◌,
}
use pigo.Base.Bytes.{Bytes}
use pigo.Base.Int.{pos, ltℤ, ◌+ℤ◌, ℤ}
use pigo.Pipeline.Cdc.{Event}
use pigo.Replication.Config.{Config}
use pigo.Replication.Messages.{
  deleted, stream_stop, relation, inserted, unhandled, truncated, updated, stream_start,
}
use pigo.Replication.Messages.{
  Relation, Message, TypeMap, Clock, put_relation, handle_insert, handle_update, handle_delete,
  handle_truncate, new_type_map,
}

-- the address of nil fields, the codecs of package pgtype, ParseV2, and the walk over a map
pub record Environment : Type 0 where
  pub nil_fields : ℕ
  pub builtin : TypeMap
  pub parse : Bytes → Bool → Option Message
  pub start : List Relation → ℕ
  pub keepalive : Bytes → Option ℕ
  pub xlog_data : Bytes → Option (ℕ × Bytes)
  pub server : Bytes

pub record Decoder : Type 0 where
  pub relations : List Relation
  pub in_stream : Bool

abbrev pub emit : Decoder → Option Event → Option (List Event × Decoder)
emit d none = none
emit d (some event) = some (event ∷ [], d)

-- processV2: its events, and the relations and the flag that it leaves; none where it ends the
-- program, for a message that is not parsed or a panic
unfoldable pub process_v2 :
    Environment → TypeMap → Clock → Bytes → Bytes → Bytes → Decoder → Option (List Event × Decoder)
unfolding put_relation handle_insert handle_update handle_delete handle_truncate
process_v2 env types clock db host wal d = elim (env.parse wal d.in_stream) [
  | none ↦ none
  | some (relation r) ↦ some ([], record d { relations = put_relation r d.relations })
  | some (inserted id xid tuple) ↦
      emit d (handle_insert env.nil_fields types clock host db d.relations id xid tuple (pos xid))
  | some (updated id xid old new) ↦
      emit d (handle_update env.nil_fields types clock host db d.relations id xid old new (pos xid))
  | some (deleted id xid old) ↦
      emit d (handle_delete env.nil_fields types clock host db d.relations id xid old (pos xid))
  | some (truncated xid) ↦ some (
    handle_truncate env.nil_fields types clock host db env.start d.relations xid (pos xid) ∷ [],
    d,
  )
  | some stream_start ↦ some ([], record d { in_stream = true })
  | some stream_stop ↦ some ([], record d { in_stream = false })
  | some unhandled ↦ some ([], d)
]

-- what conn.ReceiveMessage returns
pub data Received : Type 0 where
  timed_out failed : Received
  copy_data : Bytes → Received
  other_message : Received

-- a turn of the loop, as the connection and the clock have it
pub record Turn : Type 0 where
  pub now : ℤ
  pub status_sent : Bool
  pub after_status : ℤ
  pub received : Received
  pub clock : Clock

-- The events that were sent, and the positions that were given to SendStandbyStatusUpdate, in order.
pub record Streaming : Type 0 where
  pub wal_pos : ℕ
  pub next_standby : ℤ
  pub decoder : Decoder
  pub sent : List Event
  pub reports : List ℕ

pub data Outcome : Type 0 where
  continues returns crashes : Streaming → Outcome

abbrev pub streaming_of : Outcome → Streaming
streaming_of (continues s) = s
streaming_of (returns s) = s
streaming_of (crashes s) = s

abbrev pub max : ℕ → ℕ → ℕ
max a b = if ltb a b then b else a

-- the switch over copyData.Data[0], which panics on no data
unfoldable pub receive_copy : Environment → Turn → Bytes → Streaming → Outcome
unfolding new_type_map process_v2
receive_copy env turn [] s = crashes s
receive_copy env turn (c ∷ rest) s =
    if eqb c b'k'
    then elim (env.keepalive rest) [
      | none ↦ continues s
      | some wal_end ↦ continues (record s { wal_pos = max s.wal_pos wal_end })
    ]
    else if eqb c b'w'
    then elim (env.xlog_data rest) [
      | none ↦ continues s
      | some (wal_start, wal) ↦
          let t = record s { wal_pos = max s.wal_pos wal_start } in
          elim (process_v2 env (new_type_map env.builtin) turn.clock [] env.server wal s.decoder) [
            | none ↦ crashes t
            | some (events, decoder) ↦
                continues (record t { decoder = decoder; sent = s.sent ++ events })
          ]
    ]
    else continues s

unfoldable pub receive : Environment → Turn → Received → Streaming → Outcome
unfolding receive_copy
receive env turn timed_out s = continues s
receive env turn failed s = returns s
receive env turn other_message s = continues s
receive env turn (copy_data bytes) s = receive_copy env turn bytes s

unfoldable pub stream_turn : Environment → Config → Turn → Streaming → Outcome
unfolding receive
stream_turn env cfg turn s =
    if ltℤ s.next_standby turn.now
    then (if turn.status_sent
        then receive env turn turn.received (record s {
          reports = s.reports ++ s.wal_pos ∷ [];
          next_standby = turn.after_status +ℤ cfg.standby_update_interval;
        })
        else returns (record s { reports = s.reports ++ s.wal_pos ∷ [] }))
    else receive env turn turn.received s

-- The loop over turns: it goes on to the next only if the turn before continues.
unfoldable pub stream_events : Environment → Config → List Turn → Outcome → Outcome
unfolding stream_turn
stream_events env cfg [] o = o
stream_events env cfg (turn ∷ turns) (continues s) =
    stream_events env cfg turns (stream_turn env cfg turn s)
stream_events env cfg (turn ∷ turns) (returns s) = returns s
stream_events env cfg (turn ∷ turns) (crashes s) = crashes s

-- before the loop
unfoldable pub stream_start_state : Config → ℤ → Streaming
stream_start_state cfg now = record {
  wal_pos = 0;
  next_standby = now +ℤ cfg.standby_update_interval;
  decoder = record { relations = []; in_stream = false };
  sent = [];
  reports = [];
}
