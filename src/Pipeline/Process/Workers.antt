-- ===== src/Pipeline/Process/Workers.antt =====
-- pkg/pipeline/process.go: the goroutines of processSinkEvents on the channel of one sink, as steps. A
-- goroutine receives an event, and transforms it and gives it to the connector later; in between others
-- may run.
use pigo.Base.{
  ℕ, zero, suc, ◌+◌, ◌≤◌, ◌<◌, ◌≡◌, refl, ap, ◌∙◌, Bool, Option, none, some, List, [], ◌∷◌, ◌++◌,
  length, arith, if◌then◌else◌, length-append,
}
use pigo.Pipeline.Cdc.{Event, Heap}
use pigo.Pipeline.Manager.{Sink}
use pigo.Pipeline.Process.{sink_event}
use pigo.Pipeline.Transform.{Patterns}
use pigo.Pipeline.Transform.Chain.{Decoders}

-- The channel's queue, what each goroutine has in hand, the events that goroutines are done with, the
-- events given to the connector's Pub, the events that came into the channel, each in order, and the
-- heap of the events' rows.
pub record Sys : Type 0 where
  pub queue : List Event
  pub hands : List (Option Event)
  pub handled : List Event
  pub published : List Event
  pub accepted : List Event
  pub heap : Heap

-- n goroutines with nothing in hand
abbrev pub idle : ℕ → List (Option Event)
idle zero = []
idle (suc n) = none ∷ idle n

abbrev pub start : ℕ → Heap → Sys
start n h = record {
  queue = [];
  hands = idle n;
  handled = [];
  published = [];
  accepted = [];
  heap = h;
}

abbrev pub listed : Option Event → List Event
listed none = []
listed (some e) = e ∷ []

module _ (pats : Patterns) (d : Decoders) (sink : Sink) where
  -- The second events are what the sink's transformations leave of the first, in order: of each the
  -- one that they make of it at some heap, or none where they filter it out or fail.
  pub data Transformed : List Event → List Event → Type 0 where
    no_events : Transformed [] []
    one_more :
        (es ps : List Event) (e : Event) (h : Heap)
        → Transformed es ps
        → Transformed (es ++ e ∷ []) (ps ++ listed (sink_event pats d sink e h).0)

module _ (pats : Patterns) (d : Decoders) (sink : Sink) (capacity : ℕ) where
  pub data Step : Sys → Sys → Type 0 where
    -- distributeToSinks sends an event to a channel with room, after the transformations of a source
    -- and of the pipeline, which write to the heap
    arrive :
        {s : Sys} (e : Event) (h : Heap)
        → length s.queue < capacity
        → Step s (record s { queue = s.queue ++ e ∷ []; accepted = s.accepted ++ e ∷ []; heap = h })
    -- `case event, ok := <-ch` of a goroutine
    receive :
        {s : Sys} (e : Event) (q : List Event) (xs ys : List (Option Event))
        → s.queue ≡ e ∷ q
        → s.hands ≡ xs ++ none ∷ ys
        → Step s (record s { queue = q; hands = xs ++ some e ∷ ys })
    -- The transformations, and Pub where they leave an event; an error of theirs or of Pub is logged.
    hand_over :
        {s : Sys} (e : Event) (xs ys : List (Option Event))
        → s.hands ≡ xs ++ some e ∷ ys
        → Step s (record s {
          hands = xs ++ none ∷ ys;
          handled = s.handled ++ e ∷ [];
          published = s.published ++ listed (sink_event pats d sink e s.heap).0;
          heap = (sink_event pats d sink e s.heap).1;
        })
    -- `case <-ctx.Done()` of a goroutine
    stop :
        {s : Sys} (xs ys : List (Option Event))
        → s.hands ≡ xs ++ none ∷ ys
        → Step s (record s { hands = xs ++ ys })

  pub data Steps : Sys → Sys → Type 0 where
    done : {s : Sys} → Steps s s
    step : {s t u : Sys} → Step s t → Steps t u → Steps s u

abbrev pub in_hand : List (Option Event) → List Event
in_hand [] = []
in_hand (none ∷ xs) = in_hand xs
in_hand (some e ∷ xs) = e ∷ in_hand xs

-- how many events of a kind a list has
abbrev pub count : (Event → Bool) → List Event → ℕ
count p [] = 0
count p (e ∷ es) = (if p e then 1 else 0) + count p es

count-append :
    (p : Event → Bool) (es fs : List Event) → count p (es ++ fs) ≡ count p es + count p fs
count-append p [] fs = omega arith
count-append p (e ∷ es) fs = omega (arith, count-append p es fs)

pub in_hand-append : (xs ys : List (Option Event)) → in_hand (xs ++ ys) ≡ in_hand xs ++ in_hand ys
in_hand-append [] ys = refl
in_hand-append (none ∷ xs) ys = in_hand-append xs ys
in_hand-append (some e ∷ xs) ys = ap (λ es. e ∷ es) (in_hand-append xs ys)

count-hands :
    (p : Event → Bool) (xs ys : List (Option Event))
    → count p (in_hand (xs ++ ys)) ≡ count p (in_hand xs) + count p (in_hand ys)
count-hands p xs ys = ap (count p) (in_hand-append xs ys) ∙ count-append p (in_hand xs) (in_hand ys)

module _ (pats : Patterns) (d : Decoders) (sink : Sink) (capacity : ℕ) where
  -- The channel is within its capacity, every event accepted is handled, in hand or queued, and what
  -- was published comes from what was handled.
  abbrev pub IsConserved : Sys → Type 0
  IsConserved s =
      (length s.queue ≤ capacity)
      × ((p : Event → Bool)
          → count p s.handled + count p (in_hand s.hands) + count p s.queue ≡ count p s.accepted)
      × Transformed pats d sink s.handled s.published

  Step-IsConserved : (s t : Sys) → Step pats d sink capacity s t → IsConserved s → IsConserved t
  Step-IsConserved s t (arrive e h room) (within, conserved, made) = (
    omega (arith, room, length-append s.queue (e ∷ [])),
    λ p.
        omega
          (arith, conserved p, count-append p s.queue (e ∷ []), count-append p s.accepted (e ∷ [])),
    made,
  )
  Step-IsConserved s t (receive e q xs ys eq eh) (within, conserved, made) = (
    omega (arith, within, ap length eq),
    λ p. omega (
      arith,
      conserved p,
      ap (count p) eq,
      ap (λ b. count p (in_hand b)) eh,
      count-hands p xs (none ∷ ys),
      count-hands p xs (some e ∷ ys),
    ),
    made,
  )
  Step-IsConserved s t (hand_over e xs ys eh) (within, conserved, made) = (
    within,
    λ p. omega (
      arith,
      conserved p,
      ap (λ b. count p (in_hand b)) eh,
      count-hands p xs (none ∷ ys),
      count-hands p xs (some e ∷ ys),
      count-append p s.handled (e ∷ []),
    ),
    one_more s.handled s.published e s.heap made,
  )
  Step-IsConserved s t (stop xs ys eh) (within, conserved, made) = (
    within,
    λ p. omega (
      arith,
      conserved p,
      ap (λ b. count p (in_hand b)) eh,
      count-hands p xs (none ∷ ys),
      count-hands p xs ys,
    ),
    made,
  )

  Steps-IsConserved : (s t : Sys) → Steps pats d sink capacity s t → IsConserved s → IsConserved t
  Steps-IsConserved s t done h = h
  Steps-IsConserved s t (step st rest) h = Steps-IsConserved _ t rest (Step-IsConserved s _ st h)

in_hand-idle : (n : ℕ) → in_hand (idle n) ≡ []
in_hand-idle zero = refl
in_hand-idle (suc n) = in_hand-idle n

-- However many goroutines serve a sink and however they take turns, the channel keeps within its
-- capacity; of every kind of event, as many have been handled, are in hand or wait in the channel as
-- came into it; and the events given to the connector are those that the sink's transformations leave
-- of the handled ones, in the order of their handling. An event that they filter out or fail on is
-- handled and not given to the connector.
pub start-IsConserved :
    (pats : Patterns) (d : Decoders) (sink : Sink) (capacity n : ℕ) (h : Heap) (s : Sys)
    → Steps pats d sink capacity (start n h) s
    → IsConserved pats d sink capacity s
start-IsConserved pats d sink capacity n h s steps =
    Steps-IsConserved pats d sink capacity (start n h) s steps
      (omega arith, λ p. omega (arith, ap (count p) (in_hand-idle n)), no_events)
