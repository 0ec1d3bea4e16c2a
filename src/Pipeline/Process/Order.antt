-- ===== src/Pipeline/Process/Order.antt =====
-- pkg/pipeline/process.go: the order in which a sink's events reach its connector.
use pigo.Base.{ℕ, suc, ◌≤◌, ◌≡◌, refl, ap, ◌∙◌, none, some, [], ◌∷◌, ◌++◌, arith, ap₂}
use pigo.Pipeline.Cdc.{Heap, Event}
use pigo.Pipeline.Manager.{Sink}
use pigo.Pipeline.Process.{sink_event}
use pigo.Pipeline.Process.Workers.{
  step, start, Sys, Steps, done, listed, idle, arrive, receive, hand_over,
}
use pigo.Pipeline.Transform.{Patterns}
use pigo.Pipeline.Transform.Chain.{Decoders}

-- Let a sink have two goroutines or more and a channel with room for two events. Two events that its
-- transformations both leave, the second first, may reach its connector in the other order than they
-- came into the channel.
pub two_workers_reorder :
    (pats : Patterns) (d : Decoders) (sink : Sink) (capacity n : ℕ) (h h' h'' : Heap)
    (a b a' b' : Event)
    → 2 ≤ capacity
    → sink_event pats d sink b h ≡ (some b', h')
    → sink_event pats d sink a h' ≡ (some a', h'')
    → (s : Sys) × Steps pats d sink capacity (start (suc (suc n)) h) s
      × (s.accepted ≡ a ∷ b ∷ [])
      × (s.published ≡ b' ∷ a' ∷ [])
two_workers_reorder pats d sink capacity n h h' h'' a b a' b' room eb ea =
    let rest = idle n in
    let first = sink_event pats d sink b h in
    let second = sink_event pats d sink a first.1 in
    let second_is : second ≡ (some a', h'') = ap (λ x. sink_event pats d sink a x.1) eb ∙ ea in
    (
      record {
        queue = [];
        hands = none ∷ none ∷ rest;
        handled = b ∷ a ∷ [];
        published = listed first.0 ++ listed second.0;
        accepted = a ∷ b ∷ [];
        heap = second.1;
      },
      step (arrive a h (omega (arith, room))) (
          step (arrive b h (omega (arith, room))) (
            step (receive a (b ∷ []) [] (none ∷ rest) refl refl) (
              step (receive b [] (some a ∷ []) rest refl refl) (
                step (hand_over b (some a ∷ []) rest refl)
                  (step (hand_over a [] (none ∷ rest) refl) done))))),
      refl,
      ap₂ (λ x y. listed x.0 ++ listed y.0) eb second_is,
    )
