-- ===== src/Pipeline/Setup/Workers.antt =====
-- cmd/pigo/pipeline.go: how many goroutines a setup starts for a sink.
use mathlib.Core.Path.{subst}
use pigo.Base.{
  ℕ, ◌+◌, ◌*◌, ◌≡◌, Bool, true, false, ◌&&◌, Option, none, some, List, [], ◌∷◌, ◌++◌, length, arith,
  if◌then◌else◌,
}
use pigo.Base.Bytes.{Bytes, ◌==◌, ==_refl}
use pigo.Pipeline.Manager.{
  Peer, Source, Sink, Pipeline, Config, config_peer, get_peer, add_subscription,
  is_first_subscription,
}
use pigo.Pipeline.Process.Channels.{count_sinks}
use pigo.Pipeline.Setup.{
  State, SetupFault, setup_sinks, start_source, setup_source_connection, setup_source,
  setup_sources, setup_pipeline, peer_not_found, no_subscription, close_on_error,
}

-- how many goroutines serve a sink of a pipeline
abbrev pub workers : Bytes → Bytes → List (Bytes × Bytes) → ℕ
workers pipeline sink [] = 0
workers pipeline sink ((p, s) ∷ ws) =
    (if p == pipeline && s == sink then 1 else 0) + workers pipeline sink ws

workers-append :
    (p s : Bytes) (xs ys : List (Bytes × Bytes))
    → workers p s (xs ++ ys) ≡ workers p s xs + workers p s ys
workers-append p s [] ys = omega arith
workers-append p s (x ∷ xs) ys = omega (arith, workers-append p s xs ys)

-- What a call without a fault adds to the goroutines of a sink.
abbrev Adds : ℕ → Bytes → Bytes → State → Option SetupFault × State → Type 0
Adds n p s st (some e, st') = Unit {0}
Adds n p s st (none, st') = workers p s st'.sink_workers ≡ workers p s st.sink_workers + n

Adds-after :
    (n k m : ℕ) (p s : Bytes) (st st' : State) (r : Option SetupFault × State)
    → workers p s st'.sink_workers ≡ workers p s st.sink_workers + k
    → n + k ≡ m
    → Adds n p s st' r
    → Adds m p s st r
Adds-after n k m p s st st' (some e, st'') h q a = tt
Adds-after n k m p s st st' (none, st'') h q a = omega (arith, h, q, a)

-- one goroutine more
one_more :
    (p s name : Bytes) (ws : List (Bytes × Bytes))
    → workers p s (ws ++ (p, name) ∷ []) ≡ workers p s ws + (if name == s then 1 else 0)
one_more p s name ws = ground (arith, workers-append p s ws ((p, name) ∷ []), ==_refl p)

setup_sinks-Adds :
    (p s : Bytes) (sinks : List Sink) (st : State)
    → Adds (count_sinks s sinks) p s st (setup_sinks p sinks st)
unfolding setup_sinks
setup_sinks-Adds p s [] st = omega arith
setup_sinks-Adds p s (sink ∷ sinks) st =
    let st' = record st { sink_workers = st.sink_workers ++ (p, sink.name) ∷ [] } in
    go (get_peer st.manager sink.name) (
      Adds-after (count_sinks s sinks) (if sink.name == s then 1 else 0) _ p s st st'
        (setup_sinks p sinks st') (one_more p s sink.name st.sink_workers) (ground arith)
        (setup_sinks-Adds p s sinks st'))
  where
    go :
        (o : Option Peer)
        → Adds (count_sinks s (sink ∷ sinks)) p s st (
            setup_sinks p sinks
              (record st { sink_workers = st.sink_workers ++ (p, sink.name) ∷ [] }))
        → Adds (count_sinks s (sink ∷ sinks)) p s st (elim o as (λ _. Option SetupFault × State) [
          | none ↦ (some (peer_not_found sink.name), st)
          | some peer ↦
              setup_sinks p sinks
                (record st { sink_workers = st.sink_workers ++ (p, sink.name) ∷ [] })
        ])
    go none h = tt
    go (some peer) h = h

-- one call after another
Adds-then :
    (m n k : ℕ) (p s : Bytes) (st : State) (r : Option SetupFault × State)
    (f : State → Option SetupFault × State)
    → Adds m p s st r
    → ((st' : State) → Adds n p s st' (f st'))
    → n + m ≡ k
    → Adds k p s st
        (elim r.0 as (λ _. Option SetupFault × State) [ some e ↦ (some e, r.1) | none ↦ f r.1 ])
Adds-then m n k p s st (some e, st') f h g q = tt
Adds-then m n k p s st (none, st') f h g q = Adds-after n m k p s st st' (f st') h q (g st')

-- the part of setup_source that subscribes to a source the first time
subscribe-Adds :
    (cfg : Config) (subscribes : Peer → Bool) (p s name : Bytes) (peer : Peer) (st : State)
    (first : Bool)
    → Adds 0 p s st (
        if first
        then start_source subscribes peer name
            (record st { manager = add_subscription name p st.manager })
        else (none, record st { manager = add_subscription name p st.manager }))
unfolding start_source
subscribe-Adds cfg subscribes p s name peer st false = omega arith
subscribe-Adds cfg subscribes p s name peer st true = go (setup_source_connection subscribes peer)
  where
    subscribed : State
    subscribed = record st { manager = add_subscription name p st.manager }

    go :
        (b : Bool)
        → Adds 0 p s st (
            if b
            then (none, record subscribed { source_workers = st.source_workers ++ name ∷ [] })
            else (some (no_subscription name), subscribed))
    go true = omega arith
    go false = tt

setup_source-Adds :
    (cfg : Config) (subscribes : Peer → Bool) (pl : Pipeline) (source : Source) (st : State)
    (s : Bytes)
    → Adds (count_sinks s pl.sinks) pl.name s st (setup_source cfg subscribes pl source st)
unfolding setup_source
setup_source-Adds cfg subscribes pl source st s =
    go (config_peer cfg source.name) (get_peer st.manager source.name)
  where
    first : Bool
    first = is_first_subscription st.manager source.name

    subscribed : State
    subscribed = record st { manager = add_subscription source.name pl.name st.manager }

    started : Peer → Option SetupFault × State
    started peer =
        if first then start_source subscribes peer source.name subscribed else (none, subscribed)

    go :
        (o o' : Option Peer)
        → Adds (count_sinks s pl.sinks) pl.name s st (elim o as (λ _. Option SetupFault × State) [
          | none ↦ (some (peer_not_found source.name), st)
          | some source_peer ↦ elim o' as (λ _. Option SetupFault × State) [
            | none ↦ (some (peer_not_found source.name), st)
            | some peer ↦ elim (started source_peer).0 as (λ _. Option SetupFault × State) [
              | some e ↦ (some e, (started source_peer).1)
              | none ↦ setup_sinks pl.name pl.sinks (started source_peer).1
            ]
          ]
        ])
    go none o' = tt
    go (some p) none = tt
    go (some p) (some q) =
        Adds-then 0 (count_sinks s pl.sinks) _ pl.name s st (started p)
          (setup_sinks pl.name pl.sinks)
          (subscribe-Adds cfg subscribes pl.name s source.name p st first)
          (setup_sinks-Adds pl.name s pl.sinks) (omega arith)

setup_sources-Adds :
    (cfg : Config) (subscribes : Peer → Bool) (pl : Pipeline) (sources : List Source) (st : State)
    (s : Bytes)
    → Adds
        (length sources * count_sinks s pl.sinks)
        pl.name
        s
        st
        (setup_sources cfg subscribes pl sources st)
unfolding setup_sources
setup_sources-Adds cfg subscribes pl [] st s = omega arith
setup_sources-Adds cfg subscribes pl (source ∷ sources) st s =
    Adds-then (count_sinks s pl.sinks) (length sources * count_sinks s pl.sinks) _ pl.name s st
      (setup_source cfg subscribes pl source st) (setup_sources cfg subscribes pl sources)
      (setup_source-Adds cfg subscribes pl source st s)
      (λ st'. setup_sources-Adds cfg subscribes pl sources st' s) (omega arith)

close_on_error-Adds :
    (name p s : Bytes) (n : ℕ) (st : State) (r : Option SetupFault × State)
    → Adds n p s st r
    → Adds n p s st (close_on_error name r)
unfolding close_on_error
close_on_error-Adds name p s n st (some e, st') h = tt
close_on_error-Adds name p s n st (none, st') h = h

setup_pipeline-Adds :
    (cfg : Config) (subscribes : Peer → Bool) (pl : Pipeline) (st : State) (s : Bytes)
    → Adds
        ((length pl.sources + 1) * count_sinks s pl.sinks)
        pl.name
        s
        st
        (setup_pipeline cfg subscribes pl st)
unfolding setup_pipeline
setup_pipeline-Adds cfg subscribes pl st s =
    Adds-then (length pl.sources * count_sinks s pl.sinks) (count_sinks s pl.sinks) _ pl.name s st
      (close_on_error pl.name (setup_sources cfg subscribes pl pl.sources st))
      (setup_sinks pl.name pl.sinks)
      (close_on_error-Adds pl.name pl.name s _ st (setup_sources cfg subscribes pl pl.sources st)
        (setup_sources-Adds cfg subscribes pl pl.sources st s))
      (setup_sinks-Adds pl.name s pl.sinks) (omega arith)

-- A setup of a pipeline that succeeds starts one goroutine more than the pipeline has sources, each
-- time that the pipeline lists the sink, so at least two for a sink of a pipeline with a source.
pub workers_of_sink :
    (cfg : Config) (subscribes : Peer → Bool) (pl : Pipeline) (st st' : State) (s : Bytes)
    → setup_pipeline cfg subscribes pl st ≡ (none, st')
    → workers pl.name s st'.sink_workers
      ≡ workers pl.name s st.sink_workers + (length pl.sources + 1) * count_sinks s pl.sinks
workers_of_sink cfg subscribes pl st st' s h =
    subst (Adds _ pl.name s st) h (setup_pipeline-Adds cfg subscribes pl st s)
