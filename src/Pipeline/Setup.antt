-- ===== src/Pipeline/Setup.antt =====
-- cmd/pigo/pipeline.go: the setup of pipelines and the fan-out of a source's events.
pub mod Workers
pub mod Sources
use pigo.Base.{
  ℕ, Bool, true, false, not, ◌||◌, Option, none, some, List, [], ◌∷◌, ◌++◌, find, if◌then◌else◌,
}
use pigo.Base.Bytes.{Bytes, codes, ◌==◌, lookup}
use pigo.Base.Maps.{StringMap, assign}
use pigo.Pipeline.Cdc.{Event, Heap}
use pigo.Pipeline.Transform.{Patterns}
use pigo.Pipeline.Transform.Chain.{Decoders}
use pigo.Pipeline.Manager.{
  Peer, Source, Sink, Pipeline, Config, config_peer, config_pipeline, SourceSubscription, Manager,
  get_peer, get_subscriptions, add_subscription, is_first_subscription,
}
use pigo.Pipeline.Process.{Channel, Channels, process_event}

-- What a setup has started: a goroutine of processSourceEventsWithFanout for a source, and one of
-- processSinkEvents for a sink of a pipeline.
pub record State : Type 0 where
  pub manager : Manager
  pub source_workers : List Bytes
  pub sink_workers : List (Bytes × Bytes)
  -- the pipelines whose channels are closed
  pub closed : List Bytes

pub data SetupFault : Type 0 where
  peer_not_found no_subscription : Bytes → SetupFault

-- The goroutines that SetupSinks starts, in order; a sink without a peer ends it.
unfoldable pub setup_sinks : Bytes → List Sink → State → Option SetupFault × State
setup_sinks pipeline [] st = (none, st)
setup_sinks pipeline (sink ∷ sinks) st = elim (get_peer st.manager sink.name) [
  | none ↦ (some (peer_not_found sink.name), st)
  | some peer ↦
      setup_sinks pipeline sinks
        (record st { sink_workers = st.sink_workers ++ (pipeline, sink.name) ∷ [] })
]

abbrev pub is_source_connector : Bytes → Bool
is_source_connector c =
    c == codes "postgres" || c == codes "mqtt" || c == codes "grpc" || c == codes "nats"

-- `subscribes` is whether the connector's configuration parses and Connector.Sub succeeds.
unfoldable pub setup_source_connection : (Peer → Bool) → Peer → Bool
setup_source_connection subscribes peer =
    if is_source_connector peer.connector_name then subscribes peer else false

unfoldable pub start_source : (Peer → Bool) → Peer → Bytes → State → Option SetupFault × State
start_source subscribes peer name st =
    if setup_source_connection subscribes peer
    then (none, record st { source_workers = st.source_workers ++ name ∷ [] })
    else (some (no_subscription name), st)

unfoldable pub setup_source :
    Config → (Peer → Bool) → Pipeline → Source → State → Option SetupFault × State
setup_source cfg subscribes pl source st = elim (config_peer cfg source.name) [
  | none ↦ (some (peer_not_found source.name), st)
  | some source_peer ↦ elim (get_peer st.manager source.name) [
    | none ↦ (some (peer_not_found source.name), st)
    | some peer ↦
        let is_first = is_first_subscription st.manager source.name in
        let subscribed = record st { manager = add_subscription source.name pl.name st.manager } in
        let (fault, started) =
          if is_first
          then start_source subscribes source_peer source.name subscribed
          else (none, subscribed) in
        elim fault [ some e ↦ (some e, started) | none ↦ setup_sinks pl.name pl.sinks started ]
  ]
]

unfoldable pub setup_sources :
    Config → (Peer → Bool) → Pipeline → List Source → State → Option SetupFault × State
setup_sources cfg subscribes pl [] st = (none, st)
setup_sources cfg subscribes pl (source ∷ sources) st =
    let (fault, st') = setup_source cfg subscribes pl source st in
    elim fault [ some e ↦ (some e, st') | none ↦ setup_sources cfg subscribes pl sources st' ]

-- the channels of a pipeline, each with room for 100 events
unfoldable pub sink_channels : List Sink → Channels
sink_channels [] = []
sink_channels (sink ∷ sinks) =
    assign sink.name (record { capacity = 100; queue = [] }) (sink_channels sinks)

-- a pipeline's channels are closed where the setup of its sources fails
unfoldable pub close_on_error : Bytes → Option SetupFault × State → Option SetupFault × State
close_on_error name (some e, st) = (some e, record st { closed = st.closed ++ name ∷ [] })
close_on_error name (none, st) = (none, st)

unfoldable pub setup_pipeline :
    Config → (Peer → Bool) → Pipeline → State → Option SetupFault × State
setup_pipeline cfg subscribes pl st =
    let (fault, st') = close_on_error pl.name (setup_sources cfg subscribes pl pl.sources st) in
    elim fault [ some e ↦ (some e, st') | none ↦ setup_sinks pl.name pl.sinks st' ]

unfoldable pub setup_pipelines :
    Config → (Peer → Bool) → List Pipeline → State → Option SetupFault × State
setup_pipelines cfg subscribes [] st = (none, st)
setup_pipelines cfg subscribes (pl ∷ pls) st =
    let (fault, st') = setup_pipeline cfg subscribes pl st in
    elim fault [ some e ↦ (some e, st') | none ↦ setup_pipelines cfg subscribes pls st' ]

-- The channels of all pipelines, by the pipeline's name.
abbrev pub AllChannels : Type 0
AllChannels = StringMap Channels

abbrev pub channels_of : Bytes → AllChannels → Channels
channels_of name all = elim (lookup name all) [ none ↦ [] | some cs ↦ cs ]

module _ (pats : Patterns) (d : Decoders) (cfg : Config) where
  -- one subscription's turn in processSourceEventsWithFanout
  unfoldable pub fan_out_to :
      Bytes → Event → SourceSubscription → AllChannels → Heap → AllChannels × Heap
  fan_out_to source_name e sub all h = elim (config_pipeline cfg sub.pipeline_name) [
    | none ↦ (all, h)
    | some pl ↦ elim (find (λ (s : Source). s.name == source_name) pl.sources) [
      | none ↦ (all, h)
      | some source ↦
          let (cs, h') = process_event pats d pl source e (channels_of sub.pipeline_name all) h in
          (assign sub.pipeline_name cs all, h')
    ]
  ]

  -- one event of the source to every subscription
  unfoldable pub fan_out :
      Bytes → Event → List SourceSubscription → AllChannels → Heap → AllChannels × Heap
  fan_out source_name e [] all h = (all, h)
  fan_out source_name e (sub ∷ subs) all h =
      let (all', h') = fan_out_to source_name e sub all h in fan_out source_name e subs all' h'
