-- ===== src/Peer/Nats/Deliveries.antt =====
-- processMessages of pkg/pipeline/peer/nats/peer.go: which messages are acknowledged.
use pigo.Base.{
  Option-cases, ltb, Bool-cases, take, drop, length, ◌≡◌, refl, ◌∙◌, inl, inr, Option, none, some,
  List, [], ◌∷◌, ◌++◌, arith,
}
use pigo.Base.Bytes.{Bytes}
use mathlib.Core.List.{append_assoc, append-nil}
use pigo.Pipeline.Cdc.{Event}
use pigo.Peer.Nats.{Answer, ack, nak, Consumer, process_message, Step, message, reads, consume}

-- the events of the messages that were acknowledged, in order
abbrev pub acknowledged : (Bytes → Option Event) → List (Bytes × Answer) → List Event
acknowledged unmarshal [] = []
acknowledged unmarshal ((msg, ack) ∷ answers) = elim (unmarshal msg) [
  | none ↦ acknowledged unmarshal answers
  | some e ↦ e ∷ acknowledged unmarshal answers
]
acknowledged unmarshal ((msg, nak) ∷ answers) = acknowledged unmarshal answers

acknowledged-append :
    (unmarshal : Bytes → Option Event) (xs ys : List (Bytes × Answer))
    → acknowledged unmarshal (xs ++ ys) ≡ acknowledged unmarshal xs ++ acknowledged unmarshal ys
acknowledged-append unmarshal [] ys = refl
acknowledged-append unmarshal ((msg, ack) ∷ xs) ys =
    ground (arith, acknowledged-append unmarshal xs ys)
acknowledged-append unmarshal ((msg, nak) ∷ xs) ys = acknowledged-append unmarshal xs ys

one_acknowledged :
    (unmarshal : Bytes → Option Event) (msg : Bytes) (event : Event)
    → unmarshal msg ≡ some event
    → acknowledged unmarshal ((msg, ack) ∷ []) ≡ event ∷ []
one_acknowledged unmarshal msg event e = ground (arith, e)

-- A state in which the reader has taken, or finds in the channel, just what was acknowledged.
abbrev pub IsDelivered : (Bytes → Option Event) → Consumer → List Event → Type 0
IsDelivered unmarshal s taken = taken ++ s.queue ≡ acknowledged unmarshal s.answered

process_message-IsDelivered :
    (unmarshal : Bytes → Option Event) (msg : Bytes) (s : Consumer) (taken : List Event)
    → IsDelivered unmarshal s taken
    → IsDelivered unmarshal (process_message unmarshal msg s) taken
unfolding process_message
process_message-IsDelivered unmarshal msg s taken h = elim (Option-cases (unmarshal msg)) [
  | inl e ↦
      rw
        (
          process_message,
          e,
          acknowledged-append unmarshal s.answered ((msg, nak) ∷ []),
          append-nil (acknowledged unmarshal s.answered),
        )
        h
  | inr (event, e) ↦ elim (Bool-cases (ltb (length s.queue) 100)) [
    | inl room ↦
        rw
          (
            process_message,
            e,
            room,
            acknowledged-append unmarshal s.answered ((msg, ack) ∷ []),
            one_acknowledged unmarshal msg event e,
            ← h,
            append_assoc taken s.queue (event ∷ []),
          )
          refl
    | inr full ↦
        rw
          (
            process_message,
            e,
            full,
            acknowledged-append unmarshal s.answered ((msg, nak) ∷ []),
            append-nil (acknowledged unmarshal s.answered),
          )
          h
  ]
]

take_one : {A : Type 0} (xs ys : List A) → xs ++ take 1 ys ++ drop 1 ys ≡ xs ++ ys
take_one xs [] = append-nil (xs ++ [])
take_one xs (y ∷ ys) = append_assoc xs (y ∷ []) ys

consume-IsDelivered :
    (unmarshal : Bytes → Option Event) (steps : List Step) (s : Consumer) (taken : List Event)
    → IsDelivered unmarshal s taken
    → IsDelivered unmarshal (consume unmarshal steps s taken).0 (consume unmarshal steps s taken).1
unfolding consume
consume-IsDelivered unmarshal [] s taken h = h
consume-IsDelivered unmarshal (message msg ∷ steps) s taken h =
    consume-IsDelivered unmarshal steps (process_message unmarshal msg s) taken
      (process_message-IsDelivered unmarshal msg s taken h)
consume-IsDelivered unmarshal (reads ∷ steps) s taken h =
    consume-IsDelivered unmarshal steps (record s { queue = drop 1 s.queue })
      (taken ++ take 1 s.queue) (take_one taken s.queue ∙ h)

-- However messages and reads follow each other, the events that the reader has taken and those that
-- wait for it are, in order, those of the messages that were acknowledged: no event that is refused for
-- want of room is delivered, and none that is acknowledged is lost.
pub acknowledged_events_arrive :
    (unmarshal : Bytes → Option Event) (steps : List Step)
    → IsDelivered unmarshal
        (consume unmarshal steps (record { queue = []; answered = [] }) []).0
        (consume unmarshal steps (record { queue = []; answered = [] }) []).1
acknowledged_events_arrive unmarshal steps =
    consume-IsDelivered unmarshal steps (record { queue = []; answered = [] }) [] refl
