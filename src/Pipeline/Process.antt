-- ===== src/Pipeline/Process.antt =====
-- pkg/pipeline/process.go: an event on its way from a source to the sinks' channels, and from a channel
-- to its connector.
pub mod Channels
pub mod Workers
pub mod Order
use pigo.Base.{
  ℕ, Bool, true, false, Option, none, some, List, [], ◌∷◌, ◌++◌, length, ltb, if◌then◌else◌,
}
use pigo.Base.Bytes.{Bytes, lookup}
use pigo.Base.Maps.{StringMap, assign}
use pigo.Pipeline.Cdc.{Event, Heap}
use pigo.Pipeline.Transform.{Outcome, passed, skipped, failed, Patterns}
use pigo.Pipeline.Transform.Chain.{Decoders, apply_transformations}
use pigo.Pipeline.Manager.{Source, Sink, Pipeline}

-- a buffered channel
pub record Channel : Type 0 where
  pub capacity : ℕ
  pub queue : List Event

abbrev pub Channels : Type 0
Channels = StringMap Channel

-- The select with a default: an event that finds its channel full is lost.
unfoldable pub send : Event → Channel → Channel
send e c = if ltb (length c.queue) c.capacity then record c { queue = c.queue ++ e ∷ [] } else c

-- one sink's turn in the loop of distributeToSinks
abbrev pub offer : Sink → Event → Channels → Channels
offer sink e cs = elim (lookup sink.name cs) [ none ↦ cs | some c ↦ assign sink.name (send e c) cs ]

unfoldable pub distribute_to_sinks : List Sink → Event → Channels → Channels
distribute_to_sinks [] e cs = cs
distribute_to_sinks (sink ∷ sinks) e cs = distribute_to_sinks sinks e (offer sink e cs)

-- the event of a result that has one
abbrev pub event_of : Outcome → Option Event
event_of (passed e) = some e
event_of skipped = none
event_of (failed x) = none

module _ (pats : Patterns) (d : Decoders) where
  -- An error is logged and counted, and the event is lost as if it were filtered out.
  unfoldable pub apply_event_transformations :
      Source → Pipeline → Event → Heap → Option Event × Heap
  apply_event_transformations source pl e h =
      let (r, h') = apply_transformations pats d source.transformations (some e) h in
      elim (event_of r) [
        | none ↦ (none, h')
        | some e' ↦
            let (r', h'') = apply_transformations pats d pl.transformations (some e') h' in
            (event_of r', h'')
      ]

  unfoldable pub process_event : Pipeline → Source → Event → Channels → Heap → Channels × Heap
  process_event pl source e cs h =
      let (r, h') = apply_event_transformations source pl e h in
      elim r [ none ↦ (cs, h') | some e' ↦ (distribute_to_sinks pl.sinks e' cs, h') ]

  -- What processSinkEvents publishes for an event of its channel.
  unfoldable pub sink_event : Sink → Event → Heap → Option Event × Heap
  sink_event sink e h =
      let (r, h') = apply_transformations pats d sink.transformations (some e) h in (event_of r, h')
