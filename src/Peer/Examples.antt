-- ===== src/Peer/Examples.antt =====
-- Tests of the peers and concrete instances.
use pigo.Base.{inr, ◌⊎◌}
use pigo.Http.Client.{default_request_config, operation, request, answered, retry, no_answer}
use pigo.Peer.Webhook.{build_headers, AuthConfig, validate_auth}
use pigo.Base.{if◌then◌else◌, ◌≡◌, refl, ◌↔◌, true, false, Option, none, some, List, [], ◌∷◌, ◌++◌}
use pigo.Base.Bytes.{Bytes, lookup, contains_byte, split, ◌==◌, codes, join}
use pigo.Base.Int.{pos}
use pigo.Base.Json.{text, end, object}
use pigo.Base.Maps.{assign}
use pigo.Peer.Mqtt.Filters.{is_filter}
use pigo.Pipeline.Cdc.{
  with_schema, with_table, with_operation, row, with_source, op_update, with_before, op_delete,
  with_after, new_source, new_event, no_source,
}
use pigo.Pipeline.Cdc.{Event}
use pigo.Peer.Mqtt.Topics.{Library, topic_match}
use pigo.Peer.Mqtt.Filters.{Matches, MatchesInMqtt, is_kept_back, topic_match_iff}
use pigo.Peer.Mqtt.Subscribe.{Subscription, handle_message, topic_of, op_code, image_of}
use pigo.Peer.Mqtt.RoundTrip.{published_topic_is_read_back}
use pigo.Peer.Nats.{ack, nak, Step, message, reads, consume, process_message}
use pigo.Peer.Nats.Deliveries.{IsDelivered, acknowledged_events_arrive}
use pigo.Peer.Postgres.{publish_event, refused, no_primary_key}
use pigo.Peer.Postgres.Replicated.{update_without_old_row_is_refused}
use pigo.Pgx.Schema.{Table}
use pigo.Replication.Messages.{
  Relation, TypeMap, find_relation, handle_update, values_or_empty, row_values, source_of, event_of,
  decode_column, decode_text,
}

abbrev filter : Bytes
filter = codes "pigo/+/orders/#"

filter_is_one : is_filter (split b'/' filter) ≡ true
unfolding split ◌==◌
filter_is_one = refl

topic_match_iff_example : (topic_match filter (codes "pigo/public/orders/c") ≡ true) ↔ (
    MatchesInMqtt filter (codes "pigo/public/orders/c")
    ⊎ ((is_kept_back filter (codes "pigo/public/orders/c") ≡ true)
        × Matches (split b'/' filter) (split b'/' (codes "pigo/public/orders/c"))))
topic_match_iff_example = topic_match_iff filter (codes "pigo/public/orders/c") filter_is_one

abbrev literal_library : Library
literal_library = record { compile = λ pattern. none; parse_float = λ s. none }

abbrev plain : Subscription
plain = record {
  nil_fields = 0;
  clock = record { source = pos 1; event = pos 2 };
  lib = literal_library;
  unmarshal = λ s. if s == codes "{}" then some (object end) else none;
  prefix = codes "home/pigo";
  topic_to_fields = [];
  rules = [];
}

abbrev order_deleted : Event
order_deleted = with_operation op_delete (
    with_source
      (with_table (codes "orders")
        (with_schema (codes "shop") (new_source (codes "postgresql") (codes "db"))))
      (new_event 0))

topic_test : topic_of (codes "home/pigo") order_deleted ≡ codes "home/pigo/shop/orders/d"
unfolding topic_of new_event new_source
topic_test = refl

no_slash : contains_byte b'/' (codes "orders") ≡ false
unfolding contains_byte
no_slash = refl

no_slash_in_shop : contains_byte b'/' (codes "shop") ≡ false
unfolding contains_byte
no_slash_in_shop = refl

no_slash_in_op : contains_byte b'/' op_delete ≡ false
unfolding contains_byte
no_slash_in_op = refl

deletes : op_code op_delete ≡ some op_delete
unfolding op_code ◌==◌
deletes = refl

braces : (if codes "{}" == codes "{}" then some (object end) else none) ≡ some (object end)
unfolding ◌==◌
braces = refl

published_topic_is_read_back_example :
    (read : Event) × (handle_message plain (topic_of (codes "home/pigo") order_deleted) (codes "{}")
      ≡ read ∷ [])
    × (read.payload.source.schema ≡ codes "shop")
    × (read.payload.source.table ≡ codes "orders")
    × (read.payload.op ≡ op_delete)
    × ((if op_delete == op_delete then read.payload.before else read.payload.after)
        ≡ image_of (object end))
unfolding new_event new_source
published_topic_is_read_back_example =
    published_topic_is_read_back plain order_deleted (codes "{}") (object end) no_slash_in_shop
      no_slash no_slash_in_op deletes refl refl braces

-- a message is the schema of its event; no text is no event
abbrev short_event : Bytes → Option Event
short_event [] = none
short_event (c ∷ s) = some (with_source (with_schema (c ∷ s) no_source) (new_event 0))

abbrev deliveries : List Step
deliveries = message (codes "a") ∷ message [] ∷ reads ∷ message (codes "b") ∷ reads ∷ reads ∷ []

acknowledged_events_arrive_example :
    IsDelivered short_event
      (consume short_event deliveries (record { queue = []; answered = [] }) []).0
      (consume short_event deliveries (record { queue = []; answered = [] }) []).1
acknowledged_events_arrive_example = acknowledged_events_arrive short_event deliveries

deliveries_test :
    (consume short_event deliveries (record { queue = []; answered = [] }) []).0.answered
    ≡ (codes "a", ack) ∷ ([], nak) ∷ (codes "b", ack) ∷ []
unfolding consume process_message
deliveries_test = refl

abbrev people : Relation
people = record {
  id = 16384;
  namespace = codes "public";
  name = codes "people";
  columns = record { name = codes "id"; data_type = 23 } ∷ [];
}

abbrev people_table : Table
people_table = record {
  schema = codes "public";
  name = codes "people";
  type = codes "TABLE";
  columns = [];
  primary_keys = codes "id" ∷ [];
  foreign_keys = [];
  view_query = [];
}

abbrev no_codecs : TypeMap
no_codecs oid = none

abbrev update_event : Event
update_event = with_after (row ((codes "id", text (codes "7")) ∷ [])) (
    with_before (row []) (
      event_of 0 no_codecs (record { source = pos 1; event = pos 2 }) [] []
        (source_of 0 no_codecs (record { source = pos 1; event = pos 2 }) [] [] people 5 (pos 5))
        op_update))

known_people : find_relation 16384 (people ∷ []) ≡ some people
unfolding find_relation
known_people = refl

update_is_handled :
    handle_update 0 no_codecs
      (record { source = pos 1; event = pos 2 })
      []
      []
      (people ∷ [])
      16384
      5
      none
      (some (record { kind = b't'; bytes = codes "7" } ∷ []))
      (pos 5)
    ≡ some update_event
unfolding handle_update find_relation values_or_empty row_values decode_column decode_text assign
update_is_handled = refl

cached_people :
    lookup
      (codes "public" ++ codes "." ++ codes "people")
      ((codes "public.people", people_table) ∷ [])
    ≡ some people_table
unfolding lookup ◌==◌
cached_people = refl

update_without_old_row_is_refused_example :
    publish_event
      (λ names. join (codes ".") names)
      (λ sql args. some 1)
      true
      ((codes "public.people", people_table) ∷ [])
      update_event
    ≡ (refused no_primary_key, none)
update_without_old_row_is_refused_example =
    update_without_old_row_is_refused 0 no_codecs (record { source = pos 1; event = pos 2 }) [] []
      (people ∷ []) 16384 5 (some (record { kind = b't'; bytes = codes "7" } ∷ [])) (pos 5) people
      update_event (λ names. join (codes ".") names) (λ sql args. some 1)
      ((codes "public.people", people_table) ∷ []) people_table known_people update_is_handled refl
      cached_people

abbrev no_auth : AuthConfig
no_auth = record {
  type = codes "aws_iam";
  api_key = [];
  api_key_name = [];
  username = [];
  password = [];
  token = [];
  token_file = [];
  client_id = [];
  client_secret = [];
  token_url = [];
  service_account_file = [];
  aws_region = codes "eu-west-1";
  aws_access_key_id = [];
  aws_secret_access_key = [];
  cloudflare_token = [];
  cloudflare_key = [];
  cloudflare_email = [];
}

-- a region alone is accepted, and no header comes of it
aws_test : validate_auth no_auth ≡ inr no_auth
unfolding validate_auth ◌==◌
aws_test = refl

aws_headers_test :
    build_headers
      (λ s. s)
      no_auth
      (record { headers = []; url = codes "http://a"; method = codes "POST" })
    ≡ []
unfolding build_headers ◌==◌
aws_headers_test = refl

-- the second try is answered
retry_test :
    request
      (default_request_config (codes "POST") (codes "http://a"))
      true
      (λ r. true)
      no_answer
      (answered (record { status_code = 204; body = [] }) ∷ [])
    ≡ (none, some (record { status_code = 204; body = [] }))
unfolding request retry operation default_request_config
retry_test = refl
