-- ===== src/Replication/Examples.antt =====
-- Tests of pkg/pglogrepl and concrete instances.
use pigo.Base.{
  if◌then◌else◌, eqb, ℕ, ◌*◌, ◌≡◌, refl, true, false, Option, none, some, List, [], ◌∷◌, arith,
}
use pigo.Base.Bytes.{Bytes, lookup, ◌==◌, codes}
use pigo.Base.Int.{pos, ◌+ℤ◌}
use pigo.Base.Json.{text, number, Value}
use pigo.Base.Maps.{StringMap}
use pigo.Pipeline.Cdc.{Event, row}
use pigo.Replication.Config.{default_config}
use pigo.Replication.Messages.{
  Relation, Cell, TypeMap, Clock, new_type_map, decode_column, decode_text, find_relation,
  handle_insert,
}
use pigo.Replication.Stream.{
  Environment, Turn, Streaming, copy_data, continues, streaming_of, receive_copy, receive,
  stream_turn, stream_events, stream_start_state,
}
use pigo.Replication.Messages.Rows.{inserted_row_is_decoded}
use pigo.Replication.Stream.Progress.{
  IsReported, highest, reports_never_go_back, kept_position_is_highest,
}

abbrev people : Relation
people = record {
  id = 16384;
  namespace = codes "public";
  name = codes "people";
  columns =
      record { name = codes "id"; data_type = 23 }
      ∷ record { name = codes "name"; data_type = 25 }
      ∷ [];
}

abbrev integers : TypeMap
integers oid = if eqb oid 23 then some (λ src. some (number src)) else none

abbrev ada : List Cell
ada = record { kind = b't'; bytes = codes "7" } ∷ record { kind = b't'; bytes = codes "Ada" } ∷ []

abbrev noon : Clock
noon = record { source = pos 1000; event = pos 1001 }

known_people : find_relation 16384 (people ∷ []) ≡ some people
unfolding find_relation
known_people = refl

distinct_names : (codes "name" == codes "id") ≡ false
unfolding ◌==◌
distinct_names = refl

inserted_row_is_decoded_example :
    (values : StringMap Value) × (event : Event) × (handle_insert 0
        (new_type_map integers)
        noon
        []
        []
        (people ∷ [])
        16384
        5
        (some ada)
        (pos 5)
      ≡ some event)
    × (event.payload.after ≡ row values)
    × (event.payload.source.schema ≡ codes "public")
    × (event.payload.source.table ≡ codes "people")
    × (lookup (codes "name") values
        ≡ some (
            decode_column (new_type_map integers) (record { kind = b't'; bytes = codes "Ada" }) 25))
inserted_row_is_decoded_example =
    inserted_row_is_decoded 0 (new_type_map integers) noon [] [] (people ∷ []) 16384 5 (pos 5)
      people ada 1 (record { name = codes "name"; data_type = 25 })
      (record { kind = b't'; bytes = codes "Ada" }) known_people
      (rw distinct_names refl, (refl, tt)) (omega arith) refl refl

decoded_name :
    decode_column (new_type_map integers) (record { kind = b't'; bytes = codes "Ada" }) 25
    ≡ text (codes "Ada")
unfolding decode_column decode_text new_type_map
decoded_name = refl

-- an end of a keepalive is its first byte, in hundreds
abbrev short_keepalive : Bytes → Option ℕ
short_keepalive [] = none
short_keepalive (c ∷ s) = some (c * 100)

abbrev quiet : Environment
quiet = record {
  nil_fields = 0;
  builtin = integers;
  parse = λ wal in_stream. none;
  start = λ relations. 0;
  keepalive = short_keepalive;
  xlog_data = λ bytes. none;
  server = codes "10.0.0.1:5432";
}

-- a turn that receives a keepalive at a time, in seconds
abbrev alive_at : ℕ → ℕ → Turn
alive_at s n = record {
  now = pos (s * 1_000_000_000);
  status_sent = true;
  after_status = pos (s * 1_000_000_000);
  received = copy_data (b'k' ∷ n ∷ []);
  clock = noon;
}

-- the third turn comes when a report is due
abbrev three_turns : List Turn
three_turns = alive_at 1 3 ∷ alive_at 2 2 ∷ alive_at 11 4 ∷ []

reports_never_go_back_example : IsReported (
    streaming_of (
      stream_events quiet default_config three_turns
        (continues (stream_start_state default_config (pos 0)))))
reports_never_go_back_example = reports_never_go_back quiet default_config (pos 0) three_turns

abbrev after_three : Streaming
after_three = record {
  wal_pos = 400;
  next_standby = pos 21_000_000_000;
  decoder = record { relations = []; in_stream = false };
  sent = [];
  reports = 300 ∷ [];
}

three_turns_run :
    stream_events quiet default_config three_turns
      (continues (stream_start_state default_config (pos 0)))
    ≡ continues after_three
unfolding stream_events stream_turn receive receive_copy stream_start_state default_config ◌+ℤ◌
three_turns_run = refl

kept_position_is_highest_example : 400 ≡ highest quiet three_turns 0
kept_position_is_highest_example =
    kept_position_is_highest quiet default_config (pos 0) three_turns after_three three_turns_run
