-- ===== src/Pipeline/Examples.antt =====
-- Tests and witnesses of pkg/pipeline and cmd/pigo/pipeline.go.
use pigo.Pipeline.Process.{sink_event}
use pigo.Base.{
  ◌+◌, ◌*◌, ◌≡◌, refl, arith, true, not, some, [], ◌∷◌, ◌++◌, all, if◌then◌else◌, ◌||◌, leb,
  is_some, none,
}
use pigo.Base.Bytes.{codes, ◌==◌, lookup}
use pigo.Base.Json.{Value, number, text}
use pigo.Base.Maps.{StringMap, assign}
use pigo.Pipeline.Cdc.{
  Event, Heap, Fields, nil, cons, field, Image, row, new_event, new_source, with_schema, with_table,
  with_source, with_operation, with_after, op_create,
}
use pigo.Pipeline.Cdc
use pigo.Pipeline.Transform.{Patterns}
use pigo.Pipeline.Transform.Filter.{FilterConfig}
use pigo.Pipeline.Transform.Replace.{ReplaceConfig, replace_keys, replaced}
use pigo.Pipeline.Transform.Chain.{
  build_step, to_config, Transformation, Decoders, apply_transformations, build_chain,
  register_builtins,
}
use pigo.Pipeline.Transform.Sequence.{source_then_pipeline}
use pigo.Pipeline.Transform.Local.{transformations_are_local, Keeps}
use pigo.Pipeline.Transform.Rows.{renamed_row}
use pigo.Pipeline.Manager.{
  Peer, Source, Sink, Pipeline, Config, Manager, new_manager, World, init, config_peer, get_peer,
  init_peer, add_peer, connect_retrying, is_first_subscription, get_subscriptions, add_subscription,
}
use pigo.Pipeline.Manager.Init.{init_succeeds, is_ready}
use pigo.Pipeline.Process.{Channels, distribute_to_sinks, apply_event_transformations, event_of}
use pigo.Pipeline.Process.Channels.{distribute_lem, count_sinks, fill}
use pigo.Pipeline.Process.Workers.{
  Sys, start, arrive, receive, Steps, done, step, IsConserved, start-IsConserved, hand_over,
}
use pigo.Pipeline.Process.Order.{two_workers_reorder}
use pigo.Pipeline.Setup.{
  State, setup_pipeline, setup_pipelines, setup_sources, setup_source, start_source,
  setup_source_connection, setup_sinks, close_on_error,
}
use pigo.Pipeline.Setup.Workers.{workers_of_sink, workers}
use pigo.Pipeline.Setup.Sources.{HasOneWorker, setup_pipelines-HasOneWorker}

-- patterns without special characters, and a glob that a lone star or the same text matches
abbrev plain_patterns : Patterns
plain_patterns = record {
  compiles = λ p. true;
  matches = λ p s. p == s;
  replace_all = λ p s r. if p == s then r else s;
  glob = λ p s. p == codes "*" || p == s;
}

abbrev of_users : Cdc.Source
of_users =
    with_table (codes "users")
      (with_schema (codes "public") (new_source (codes "postgres") (codes "pg")))

abbrev created : Event
created =
    with_after (row ((codes "id", number (codes "1")) ∷ (codes "email", text (codes "a@b")) ∷ []))
      (with_operation op_create (with_source of_users (new_event 0)))

abbrev no_fields : Heap
no_fields a = nil

abbrev users_only : FilterConfig
users_only = record {
  table_pattern = [];
  tables = codes "public.users" ∷ [];
  exclude_tables = codes "audit.*" ∷ [];
  operations = op_create ∷ [];
}

abbrev email_as_mail : ReplaceConfig
email_as_mail = record {
  schemas = [];
  tables = [];
  columns = (codes "email", codes "mail") ∷ [];
  regex = [];
}

-- each kind of transformation has one configuration
abbrev decoders : Decoders
decoders = record {
  decode_extract = λ c. some (record { fields = codes "email" ∷ [] });
  decode_filter = λ c. some users_only;
  decode_replace = λ c. some email_as_mail;
}

abbrev filtering : Transformation
filtering = record { config = []; type = codes "filter" }

abbrev renaming : Transformation
renaming = record { config = []; type = codes "replace" }

abbrev pg_source : Source
pg_source = record { name = codes "pg"; transformations = filtering ∷ [] }

abbrev log_sink : Sink
log_sink = record { name = codes "log"; transformations = [] }

abbrev users_to_log : Pipeline
users_to_log = record {
  name = codes "p";
  sources = pg_source ∷ [];
  transformations = renaming ∷ [];
  sinks = log_sink ∷ [];
}

source_then_pipeline_example :
    let r =
      apply_transformations plain_patterns decoders
        (pg_source.transformations ++ users_to_log.transformations)
        (some created)
        no_fields in
    apply_event_transformations plain_patterns decoders pg_source users_to_log created no_fields
    ≡ (event_of r.0, r.1)
unfolding build_chain build_step lookup register_builtins assign ◌==◌ to_config
source_then_pipeline_example =
    source_then_pipeline plain_patterns decoders pg_source users_to_log _ _ created no_fields refl
      refl

transformations_are_local_example : Keeps 0 no_fields (
    apply_transformations plain_patterns decoders
      (filtering ∷ renaming ∷ [])
      (some created)
      no_fields)
unfolding new_event
transformations_are_local_example =
    transformations_are_local plain_patterns decoders (filtering ∷ renaming ∷ []) created no_fields

abbrev user_row : StringMap Value
user_row = (codes "id", number (codes "1")) ∷ (codes "email", text (codes "a@b")) ∷ []

renamed_row_example :
    lookup
      (replaced email_as_mail.columns (codes "email"))
      (replace_keys email_as_mail.columns user_row [])
    ≡ some (text (codes "a@b"))
unfolding replaced lookup ◌==◌
renamed_row_example =
    renamed_row email_as_mail.columns user_row (codes "email") (text (codes "a@b"))
      ((refl, tt), (tt, tt)) refl

abbrev pg_peer : Peer
pg_peer = record {
  name = codes "pg";
  connector_name = codes "postgres";
  config = (codes "host", text (codes "db")) ∷ [];
}

abbrev log_peer : Peer
log_peer = record { name = codes "log"; connector_name = codes "debug"; config = [] }

-- pg connects on its fourth attempt, any other peer on its first
abbrev slow_world : World
slow_world = record {
  encodes = λ c. true;
  connects = λ name i. not (name == codes "pg") || leb 3 i;
}

abbrev fresh_manager : Manager
fresh_manager = new_manager (codes "postgres" ∷ codes "debug" ∷ [])

init_succeeds_example :
    not (is_some (init slow_world (pg_peer ∷ log_peer ∷ []) fresh_manager).0)
    ≡ all (is_ready slow_world fresh_manager.connectors) (pg_peer ∷ log_peer ∷ [])
init_succeeds_example = init_succeeds slow_world (pg_peer ∷ log_peer ∷ []) fresh_manager

-- one place is left in the channel of log
abbrev some_channels : Channels
some_channels = (codes "log", record { capacity = 2; queue = created ∷ [] }) ∷ []

distribute_lem_example :
    lookup (codes "log") (distribute_to_sinks (log_sink ∷ log_sink ∷ []) created some_channels)
    ≡ fill
        (count_sinks (codes "log") (log_sink ∷ log_sink ∷ []))
        created
        (lookup (codes "log") some_channels)
distribute_lem_example =
    distribute_lem (log_sink ∷ log_sink ∷ []) created some_channels (codes "log")

-- a goroutine has published the first of two events
abbrev one_published : Sys
one_published = record {
  queue = created ∷ [];
  hands = none ∷ none ∷ [];
  handled = created ∷ [];
  published = created ∷ [];
  accepted = created ∷ created ∷ [];
  heap = no_fields;
}

one_published-Steps : Steps plain_patterns decoders log_sink 2 (start 2 no_fields) one_published
unfolding sink_event apply_transformations
one_published-Steps = step (arrive created no_fields (omega arith)) (
    step (arrive created no_fields (omega arith)) (
      step (receive created (created ∷ []) [] (none ∷ []) refl refl)
        (step (hand_over created [] (none ∷ []) refl) done)))

start-IsConserved_example : IsConserved plain_patterns decoders log_sink 2 one_published
start-IsConserved_example =
    start-IsConserved plain_patterns decoders log_sink 2 2 no_fields one_published
      one_published-Steps

two_workers_reorder_example :
    (s : Sys) × Steps plain_patterns decoders log_sink 2 (start 2 no_fields) s
    × (s.accepted ≡ created ∷ new_event 0 ∷ [])
    × (s.published ≡ new_event 0 ∷ created ∷ [])
unfolding sink_event apply_transformations
two_workers_reorder_example =
    two_workers_reorder plain_patterns decoders log_sink 2 0 no_fields no_fields no_fields created
      (new_event 0) created (new_event 0) (omega arith) refl refl

abbrev config : Config
config = record { peers = pg_peer ∷ log_peer ∷ []; pipelines = users_to_log ∷ [] }

abbrev nothing_started : State
nothing_started = record {
  manager = (init slow_world (pg_peer ∷ log_peer ∷ []) fresh_manager).1;
  source_workers = [];
  sink_workers = [];
  closed = [];
}

abbrev all_started : State
all_started = (setup_pipeline config (λ p. true) users_to_log nothing_started).1

workers_of_sink_example :
    workers (codes "p") (codes "log") all_started.sink_workers
    ≡ workers (codes "p") (codes "log") [] + 2 * count_sinks (codes "log") users_to_log.sinks
unfolding setup_pipeline close_on_error setup_sources setup_source config_peer ◌==◌ get_peer lookup
    init init_peer add_peer new_manager connect_retrying assign is_first_subscription
    get_subscriptions start_source setup_source_connection setup_sinks add_subscription
workers_of_sink_example =
    workers_of_sink config (λ p. true) users_to_log nothing_started all_started (codes "log") refl

setup_pipelines-HasOneWorker_example :
    HasOneWorker
      (setup_pipelines config (λ p. true) (users_to_log ∷ users_to_log ∷ []) nothing_started).1
setup_pipelines-HasOneWorker_example =
    setup_pipelines-HasOneWorker config (λ p. true) (users_to_log ∷ users_to_log ∷ [])
      nothing_started (λ name. omega arith)
