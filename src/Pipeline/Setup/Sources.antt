-- ===== src/Pipeline/Setup/Sources.antt =====
-- cmd/pigo/pipeline.go: the goroutines that read the sources.
use pigo.Base.{
  ℕ, ◌+◌, ◌≤◌, ◌≡◌, refl, ap, Bool, false, Option, none, some, List, [], ◌∷◌, ◌++◌, is_empty, arith,
  if◌then◌else◌,
}
use pigo.Base.Bytes.{Bytes, ◌==◌, ==_sound}
use pigo.Base.Maps.{lookup-assign}
use pigo.Pipeline.Manager.{
  Peer, Source, Sink, Pipeline, Config, config_peer, Manager, get_peer, get_subscriptions,
  add_subscription, is_first_subscription,
}
use pigo.Pipeline.Setup.{
  State, SetupFault, peer_not_found, setup_sinks, start_source, setup_source, setup_sources,
  setup_pipeline, setup_pipelines, close_on_error,
}

abbrev pub count_name : Bytes → List Bytes → ℕ
count_name name [] = 0
count_name name (n ∷ ns) = (if n == name then 1 else 0) + count_name name ns

count_name-append :
    (name : Bytes) (xs ys : List Bytes)
    → count_name name (xs ++ ys) ≡ count_name name xs + count_name name ys
count_name-append name [] ys = omega arith
count_name-append name (x ∷ xs) ys = omega (arith, count_name-append name xs ys)

-- A source has at most one goroutine, and none before its first subscription.
abbrev pub HasOneWorker : State → Type 0
HasOneWorker st =
    (name : Bytes)
    → count_name name st.source_workers ≤ (if is_first_subscription st.manager name then 0 else 1)

nonempty : {A : Type 0} (xs : List A) (x : A) → is_empty (xs ++ x ∷ []) ≡ false
nonempty [] x = refl
nonempty (y ∷ xs) x = refl

is_first-add :
    (source pipeline name : Bytes) (m : Manager)
    → is_first_subscription (add_subscription source pipeline m) name
      ≡ (if source == name then false else is_first_subscription m name)
unfolding is_first_subscription add_subscription get_subscriptions
is_first-add source pipeline name m = ground (
  arith,
  lookup-assign source name (get_subscriptions m source ++ record { pipeline_name = pipeline } ∷ [])
      m.subscriptions,
  nonempty (get_subscriptions m source) (record { pipeline_name = pipeline }),
)

subscribe-HasOneWorker :
    (subscribes : Peer → Bool) (pipeline name : Bytes) (peer : Peer) (st : State)
    → HasOneWorker st
    → HasOneWorker
        (if is_first_subscription st.manager name
          then start_source subscribes peer name
              (record st { manager = add_subscription name pipeline st.manager })
          else (none, record st { manager = add_subscription name pipeline st.manager })).1
unfolding start_source
subscribe-HasOneWorker subscribes pipeline name peer st h other = ground (
  arith,
  h other,
  is_first-add name pipeline other st.manager,
  ==_sound name other,
  count_name-append other st.source_workers (name ∷ []),
)

setup_sinks-sources :
    (p : Bytes) (sinks : List Sink) (st : State)
    → ((setup_sinks p sinks st).1.manager ≡ st.manager)
      × ((setup_sinks p sinks st).1.source_workers ≡ st.source_workers)
unfolding setup_sinks
setup_sinks-sources p [] st = (refl, refl)
setup_sinks-sources p (sink ∷ sinks) st = ground (
  arith,
  setup_sinks-sources p sinks (record st { sink_workers = st.sink_workers ++ (p, sink.name) ∷ [] }),
)

setup_sinks-HasOneWorker :
    (p : Bytes) (sinks : List Sink) (st : State)
    → HasOneWorker st
    → HasOneWorker (setup_sinks p sinks st).1
setup_sinks-HasOneWorker p sinks st h name =
    let (m, w) = setup_sinks-sources p sinks st in
    omega (
      arith,
      h name,
      ap (count_name name) w,
      ap {B = ℕ} (λ v. if is_first_subscription v name then 0 else 1) m,
    )

-- one call after another
HasOneWorker-then :
    (r : Option SetupFault × State) (f : State → Option SetupFault × State)
    → HasOneWorker r.1
    → ((st : State) → HasOneWorker st → HasOneWorker (f st).1)
    → HasOneWorker
        (elim r.0 as (λ _. Option SetupFault × State) [ some e ↦ (some e, r.1) | none ↦ f r.1 ]).1
HasOneWorker-then (some e, st) f h k = h
HasOneWorker-then (none, st) f h k = k st h

setup_source-HasOneWorker :
    (cfg : Config) (subscribes : Peer → Bool) (pl : Pipeline) (source : Source) (st : State)
    → HasOneWorker st
    → HasOneWorker (setup_source cfg subscribes pl source st).1
unfolding setup_source
setup_source-HasOneWorker cfg subscribes pl source st h =
    go (config_peer cfg source.name) (get_peer st.manager source.name)
  where
    started : Peer → Option SetupFault × State
    started peer =
        if is_first_subscription st.manager source.name
        then start_source subscribes peer source.name
            (record st { manager = add_subscription source.name pl.name st.manager })
        else (none, record st { manager = add_subscription source.name pl.name st.manager })

    go :
        (o o' : Option Peer)
        → HasOneWorker
            (elim o as (λ _. Option SetupFault × State) [
              | none ↦ (some (peer_not_found source.name), st)
              | some source_peer ↦ elim o' as (λ _. Option SetupFault × State) [
                | none ↦ (some (peer_not_found source.name), st)
                | some peer ↦ elim (started source_peer).0 as (λ _. Option SetupFault × State) [
                  | some e ↦ (some e, (started source_peer).1)
                  | none ↦ setup_sinks pl.name pl.sinks (started source_peer).1
                ]
              ]
            ]).1
    go none o' = h
    go (some p) none = h
    go (some p) (some q) =
        HasOneWorker-then (started p) (setup_sinks pl.name pl.sinks)
          (subscribe-HasOneWorker subscribes pl.name source.name p st h)
          (setup_sinks-HasOneWorker pl.name pl.sinks)

setup_sources-HasOneWorker :
    (cfg : Config) (subscribes : Peer → Bool) (pl : Pipeline) (sources : List Source) (st : State)
    → HasOneWorker st
    → HasOneWorker (setup_sources cfg subscribes pl sources st).1
unfolding setup_sources
setup_sources-HasOneWorker cfg subscribes pl [] st h = h
setup_sources-HasOneWorker cfg subscribes pl (source ∷ sources) st h =
    HasOneWorker-then (setup_source cfg subscribes pl source st)
      (setup_sources cfg subscribes pl sources)
      (setup_source-HasOneWorker cfg subscribes pl source st h)
      (setup_sources-HasOneWorker cfg subscribes pl sources)

close_on_error-HasOneWorker :
    (name : Bytes) (r : Option SetupFault × State)
    → HasOneWorker r.1
    → HasOneWorker (close_on_error name r).1
unfolding close_on_error
close_on_error-HasOneWorker name (some e, st) h = h
close_on_error-HasOneWorker name (none, st) h = h

setup_pipeline-HasOneWorker :
    (cfg : Config) (subscribes : Peer → Bool) (pl : Pipeline) (st : State)
    → HasOneWorker st
    → HasOneWorker (setup_pipeline cfg subscribes pl st).1
unfolding setup_pipeline
setup_pipeline-HasOneWorker cfg subscribes pl st h =
    HasOneWorker-then (close_on_error pl.name (setup_sources cfg subscribes pl pl.sources st))
      (setup_sinks pl.name pl.sinks)
      (close_on_error-HasOneWorker pl.name (setup_sources cfg subscribes pl pl.sources st)
        (setup_sources-HasOneWorker cfg subscribes pl pl.sources st h))
      (setup_sinks-HasOneWorker pl.name pl.sinks)

-- The setup of any pipelines, whether it ends well or in an error, keeps at most one goroutine for
-- each source, however many pipelines share it, and none for a source without a subscription.
pub setup_pipelines-HasOneWorker :
    (cfg : Config) (subscribes : Peer → Bool) (pls : List Pipeline) (st : State)
    → HasOneWorker st
    → HasOneWorker (setup_pipelines cfg subscribes pls st).1
unfolding setup_pipelines
setup_pipelines-HasOneWorker cfg subscribes [] st h = h
setup_pipelines-HasOneWorker cfg subscribes (pl ∷ pls) st h =
    HasOneWorker-then (setup_pipeline cfg subscribes pl st) (setup_pipelines cfg subscribes pls)
      (setup_pipeline-HasOneWorker cfg subscribes pl st h)
      (setup_pipelines-HasOneWorker cfg subscribes pls)
