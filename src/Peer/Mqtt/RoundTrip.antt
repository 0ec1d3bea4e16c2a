-- ===== src/Peer/Mqtt/RoundTrip.antt =====
-- pkg/pipeline/peer/mqtt/peer.go: Pub's topic, as Sub's handler reads it.
use pigo.Base.Bytes.{split-around}
use pigo.Peer.Mqtt.Subscribe.{slash}
use pigo.Base.{Bool-cases, ℕ, inl, inr}
use pigo.Peer.Mqtt.Subscribe.{topic_conditions}
use pigo.Pipeline.Cdc.{Image}
use pigo.Base.{
  ltb, if◌then◌else◌, is_empty, length-append, length, drop-append, ◌+◌, ◌≡◌, refl, false, some, [],
  ◌∷◌, ◌++◌, arith,
}
use pigo.Base.Bytes.{Bytes, split, contains_byte, ◌==◌, split_whole}
use pigo.Base.Json.{Value}
use pigo.Pipeline.Cdc.{op_delete}
use pigo.Pipeline.Cdc.{Event}
use pigo.Peer.Mqtt.Subscribe.{
  Subscription, topic_of, op_code, image_of, parts_behind, handle_message, events_of, topic_parts,
  scalar_parts, payloads_of, decoded_payloads, create_event, create_event_with_fields,
}
use pigo.Replication.Messages.{Clock}
use mathlib.Core.List.{append_assoc}

split-topic_of :
    (prefix : Bytes) (e : Event)
    → contains_byte b'/' e.payload.source.schema ≡ false
    → contains_byte b'/' e.payload.source.table ≡ false
    → contains_byte b'/' e.payload.op ≡ false
    → split b'/' (topic_of prefix e)
      ≡ split b'/' prefix ++ e.payload.source.schema ∷ e.payload.source.table ∷ e.payload.op ∷ []
unfolding topic_of
split-topic_of prefix e hs ht ho =
    let schema = e.payload.source.schema in
    let table = e.payload.source.table in
    let op = e.payload.op in
    rw
      (
        topic_of,
        split-around b'/' (prefix ++ slash ++ schema ++ slash ++ table) op,
        split-around b'/' (prefix ++ slash ++ schema) table,
        split-around b'/' prefix schema,
        split_whole b'/' schema hs,
        split_whole b'/' table ht,
        split_whole b'/' op ho,
        append_assoc (split b'/' prefix ++ schema ∷ []) (table ∷ []) (op ∷ []),
        append_assoc (split b'/' prefix) (schema ∷ []) (table ∷ op ∷ []),
      )
      refl

parts_behind-topic_of :
    (sub : Subscription) (e : Event)
    → contains_byte b'/' e.payload.source.schema ≡ false
    → contains_byte b'/' e.payload.source.table ≡ false
    → contains_byte b'/' e.payload.op ≡ false
    → parts_behind sub (topic_of sub.prefix e)
      ≡ some (e.payload.source.schema ∷ e.payload.source.table ∷ e.payload.op ∷ [])
parts_behind-topic_of sub e hs ht ho =
    let parts = e.payload.source.schema ∷ e.payload.source.table ∷ e.payload.op ∷ [] in
    let enough : ltb (length (split b'/' sub.prefix ++ parts)) (length (split b'/' sub.prefix) + 3)
        ≡ false =
      ground (arith, length-append (split b'/' sub.prefix) parts) in
    rw (split-topic_of sub.prefix e hs ht ho, enough, drop-append (split b'/' sub.prefix) parts)
      refl

plain_payload :
    (sub : Subscription) (payload : Bytes) (v : Value)
    → is_empty payload ≡ false
    → sub.unmarshal payload ≡ some v
    → payloads_of sub.lib sub.unmarshal (topic_parts []) payload ≡ some (image_of v ∷ [])
unfolding payloads_of topic_parts scalar_parts topic_conditions decoded_payloads
plain_payload sub payload v h e = rw (h, e) refl

created :
    (nil_fields : ℕ) (clock : Clock) (schema table op : Bytes) (i : Image)
    → ((create_event nil_fields clock schema table op i).payload.source.schema ≡ schema)
      × ((create_event nil_fields clock schema table op i).payload.source.table ≡ table)
      × ((create_event nil_fields clock schema table op i).payload.op ≡ op)
      × ((if op == op_delete
            then (create_event nil_fields clock schema table op i).payload.before
            else (create_event nil_fields clock schema table op i).payload.after)
          ≡ i)
unfolding create_event
created nil_fields clock schema table op i = elim (Bool-cases (op == op_delete)) [
  | inl e ↦ rw e (refl, refl, refl, refl)
  | inr e ↦ rw e (refl, refl, refl, refl)
]

-- A message under the topic to which Pub sends an event, for a schema, a table and an operation without
-- a slash, an operation that Sub knows by its code, and no fields that are taken from topics, is handled
-- by Sub with the same prefix, where the message is not empty and decodes as JSON, as one event of that
-- schema, table and operation. Its image is the decoded message.
pub published_topic_is_read_back :
    (sub : Subscription) (e : Event) (payload : Bytes) (v : Value)
    → contains_byte b'/' e.payload.source.schema ≡ false
    → contains_byte b'/' e.payload.source.table ≡ false
    → contains_byte b'/' e.payload.op ≡ false
    → op_code e.payload.op ≡ some e.payload.op
    → sub.topic_to_fields ≡ []
    → is_empty payload ≡ false
    → sub.unmarshal payload ≡ some v
    → (read : Event) × (handle_message sub (topic_of sub.prefix e) payload ≡ read ∷ [])
      × (read.payload.source.schema ≡ e.payload.source.schema)
      × (read.payload.source.table ≡ e.payload.source.table)
      × (read.payload.op ≡ e.payload.op)
      × ((if e.payload.op == op_delete then read.payload.before else read.payload.after)
          ≡ image_of v)
unfolding handle_message events_of create_event_with_fields
published_topic_is_read_back sub e payload v hs ht ho known no_fields some_payload decoded =
    let schema = e.payload.source.schema in
    let table = e.payload.source.table in
    let op = e.payload.op in
    let is_it = created sub.nil_fields sub.clock schema table op (image_of v) in
    (
      create_event sub.nil_fields sub.clock schema table op (image_of v),
      rw
          (
            handle_message,
            parts_behind-topic_of sub e hs ht ho,
            events_of,
            known,
            plain_payload sub payload v some_payload decoded,
            no_fields,
          )
          refl,
      is_it.0,
      is_it.1,
      is_it.2,
      is_it.3,
    )
