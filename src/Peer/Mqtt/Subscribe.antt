-- ===== src/Peer/Mqtt/Subscribe.antt =====
-- pkg/pipeline/peer/mqtt/peer.go: Pub's message, and the handler that Sub subscribes.
use pigo.Base.{
  eqb, if◌then◌else◌, ltb, length, drop, take, is_empty, ℕ, ◌+◌, ◌-◌, ◌%◌, Bool, true, false, not,
  ◌||◌, Option, none, some, List, [], ◌∷◌, ◌++◌, map, get_elem?,
}
use pigo.Base.Bytes.{lookup, codes, split, trim_slashes, Bytes, ◌==◌}
use pigo.Base.Json.{
  bool, Value, null, Members, array, number, text, member, Values, object, end, cons, nil, cons,
}
use pigo.Base.Maps.{StringMap, has_key, assign}
use pigo.Pipeline.Cdc.{
  with_database, new_source, op_delete, with_schema, with_timestamp, with_event_timestamp,
  op_create, with_after, with_before, with_table, with_operation, op_update, new_event, with_source,
  op_read,
}
use pigo.Replication.Messages.{Clock}
use pigo.Pipeline.Cdc.{Event, Image, row, other, nothing}
use pigo.Peer.Mqtt.Topics.{
  Library, TopicToField, CompiledRule, parse_scalar, extract_fields_from_topic, rewrite_topic,
  subscribe,
}

abbrev pub slash : Bytes
slash = codes "/"

-- Pub's topic
unfoldable pub topic_of : Bytes → Event → Bytes
topic_of prefix e =
    prefix ++ slash ++ e.payload.source.schema ++ slash ++ e.payload.source.table ++ slash
    ++ e.payload.op

-- What a JSON value is in `any`: nil, a map, or another value. Of equal names the last counts.
unfoldable pub members_map : Members → StringMap Value → StringMap Value
unfolding assign
members_map end m = m
members_map (member k v ms) m = members_map ms (assign k v m)

unfoldable pub image_of : Value → Image
unfolding members_map
image_of null = nothing
image_of (object ms) = row (members_map ms [])
image_of (bool b) = other (bool b)
image_of (number n) = other (number n)
image_of (text s) = other (text s)
image_of (array vs) = other (array vs)

-- Sub's prefix: that of the configuration, or the argument, if it is a string, without slashes around it
unfoldable pub sub_prefix : Bytes → Option Bytes → Bytes
unfolding trim_slashes
sub_prefix configured none = configured
sub_prefix configured (some arg) = trim_slashes arg

unfoldable pub op_code : Bytes → Option Bytes
op_code operation =
    if operation == codes "c" || operation == codes "create"
    then some op_create
    else if operation == codes "u" || operation == codes "update"
    then some op_update
    else if operation == codes "d" || operation == codes "delete"
    then some op_delete
    else if operation == codes "r" || operation == codes "read"
    then some op_read
    else none

abbrev pub is_odd : ℕ → Bool
is_odd n = eqb (n % 2) 1

-- the keys and values of a topic behind the operation
unfoldable pub topic_conditions : Library → List Bytes → StringMap Value → StringMap Value
unfolding parse_scalar assign
topic_conditions lib [] m = m
topic_conditions lib (k ∷ []) m = m
topic_conditions lib (k ∷ v ∷ rest) m = topic_conditions lib rest (assign k (parse_scalar lib v) m)

-- Each key that the map does not have is added.
unfoldable pub add_missing : StringMap Value → StringMap Value → StringMap Value
unfolding assign lookup
add_missing [] m = m
add_missing ((k, v) ∷ new) m = add_missing new (if has_key k m then m else assign k v m)

abbrev pub merge_into : StringMap Value → Image → Image
merge_into new (row m) = row (add_missing new m)
merge_into new nothing = nothing
merge_into new (other v) = other v

abbrev pub images_of : Values → List Image
images_of nil = []
images_of (cons v vs) = image_of v ∷ images_of vs

-- a JSON document as payloads: into a slice for a batch, where an array or null fits, else into one value
unfoldable pub decoded_payloads : Bool → Value → List Image
unfolding image_of
decoded_payloads true (array vs) = images_of vs
decoded_payloads true null = []
decoded_payloads true (bool b) = image_of (bool b) ∷ []
decoded_payloads true (number n) = image_of (number n) ∷ []
decoded_payloads true (text s) = image_of (text s) ∷ []
decoded_payloads true (object ms) = image_of (object ms) ∷ []
decoded_payloads false v = image_of v ∷ []

-- The parts of a topic behind the operation, as the handler reads them.
pub record TopicParts : Type 0 where
  pub is_batch : Bool
  pub scalar : Option Bytes
  pub pairs : List Bytes

unfoldable pub scalar_parts : Bool → List Bytes → TopicParts
scalar_parts is_batch remaining =
    if is_odd (length remaining)
    then record {
      is_batch = is_batch;
      scalar = get_elem? remaining (length remaining - 1);
      pairs = take (length remaining - 1) remaining;
    }
    else record { is_batch = is_batch; scalar = none; pairs = remaining }

unfoldable pub topic_parts : List Bytes → TopicParts
unfolding scalar_parts
topic_parts [] = scalar_parts false []
topic_parts (p ∷ ps) =
    if p == codes "batch" then scalar_parts true ps else scalar_parts false (p ∷ ps)

module _ (lib : Library) (unmarshal : Bytes → Option Value) where
  -- the payloads of a message, or none where the handler drops it
  unfoldable pub payloads_of : TopicParts → Bytes → Option (List Image)
  unfolding topic_conditions decoded_payloads
  payloads_of parts payload =
      let conditions = topic_conditions lib parts.pairs [] in
      if not (is_empty payload)
      then elim parts.scalar [
        | some name ↦ some (row (assign name (parse_scalar lib payload) conditions) ∷ [])
        | none ↦ elim (unmarshal payload) [
          | none ↦ none
          | some v ↦ some (
              if is_empty conditions
              then decoded_payloads parts.is_batch v
              else map (merge_into conditions) (decoded_payloads parts.is_batch v))
        ]
      ]
      else elim parts.scalar [
        | some name ↦ some (row (assign name null conditions) ∷ [])
        | none ↦ some (if is_empty conditions then [] else row conditions ∷ [])
      ]

abbrev pub fields_only : StringMap Value → Image → Image
fields_only fields nothing = row fields
fields_only fields (row m) = row (add_missing fields m)
fields_only fields (other v) = other v

-- createEvent, and createEventWithFieldsFromTopic
module _ (nil_fields : ℕ) (clock : Clock) where
  unfoldable pub create_event : Bytes → Bytes → Bytes → Image → Event
  unfolding new_source new_event
  create_event schema table op payload =
      let source = with_timestamp clock.source (
        with_table table (
          with_schema schema
            (with_database (codes "mqtt") (new_source (codes "mqtt") (codes "mqtt-source"))))) in
      let e =
        with_event_timestamp clock.event
          (with_operation op (with_source source (new_event nil_fields))) in
      if op == op_delete then with_before payload e else with_after payload e

  unfoldable pub create_event_with_fields : Bytes → Bytes → Bytes → Image → StringMap Value → Event
  unfolding create_event
  create_event_with_fields schema table op payload fields =
      create_event schema table op (if is_empty fields then payload else fields_only fields payload)

-- The channel has room for 100 events; one that finds it full is dropped.
unfoldable pub offer_events : List Event → List Event → List Event
offer_events queue [] = queue
offer_events queue (e ∷ es) =
    offer_events (if ltb (length queue) 100 then queue ++ e ∷ [] else queue) es

pub record Subscription : Type 0 where
  pub nil_fields : ℕ
  pub clock : Clock
  pub lib : Library
  pub unmarshal : Bytes → Option Value
  pub prefix : Bytes
  pub topic_to_fields : List TopicToField
  -- the rules of the rewriter, which is nil where none are configured
  pub rules : List CompiledRule

-- the handler behind the check of the parts' count
unfoldable pub events_of : Subscription → Bytes → List Bytes → Bytes → List Event
unfolding op_code topic_parts payloads_of create_event_with_fields extract_fields_from_topic
events_of sub topic (schema ∷ table ∷ operation ∷ rest) payload = elim (op_code operation) [
  | none ↦ []
  | some op ↦ elim (payloads_of sub.lib sub.unmarshal (topic_parts rest) payload) [
    | none ↦ []
    | some payloads ↦
        let fields = extract_fields_from_topic sub.lib topic sub.topic_to_fields in
        map (λ p. create_event_with_fields sub.nil_fields sub.clock schema table op p fields)
          payloads
  ]
]
events_of sub topic (schema ∷ table ∷ []) payload = []
events_of sub topic (schema ∷ []) payload = []
events_of sub topic [] payload = []

-- the parts behind the prefix, of a topic that has its parts and three more
abbrev pub parts_behind : Subscription → Bytes → Option (List Bytes)
parts_behind sub topic =
    let n = length (split b'/' sub.prefix) in
    if ltb (length (split b'/' topic)) (n + 3) then none else some (drop n (split b'/' topic))

-- a topic of another form may be rewritten, once
unfoldable pub handle_message : Subscription → Bytes → Bytes → List Event
unfolding events_of rewrite_topic split
handle_message sub topic payload = elim (parts_behind sub topic) [
  | some parts ↦ events_of sub topic parts payload
  | none ↦
      let rewritten = rewrite_topic sub.rules topic subscribe [] [] in
      if rewritten == topic then [] else elim (parts_behind sub rewritten) [
        | none ↦ []
        | some parts ↦ events_of sub rewritten parts payload
      ]
]

-- the callback: a message's events go into the channel, as far as it has room
unfoldable pub on_message : Subscription → Bytes → Bytes → List Event → List Event
unfolding handle_message offer_events
on_message sub topic payload queue = offer_events queue (handle_message sub topic payload)
