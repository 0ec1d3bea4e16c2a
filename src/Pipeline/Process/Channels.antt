-- ===== src/Pipeline/Process/Channels.antt =====
-- pkg/pipeline/process.go: the channels of the sinks under distributeToSinks.
use mathlib.Core.List.{append_assoc, append-nil}
use pigo.Base.{
  ℕ, zero, suc, ◌-◌, ◌≡◌, refl, ap, ◌∙◌, sym, Bool, true, false, Option, none, some, List, [], ◌∷◌,
  ◌++◌, length, take, ltb, arith, if◌then◌else◌, length-append, ◌<◌, Option-cases, lt_of_ltb, inl,
  le_of_ltb, inr,
}
use pigo.Base.Bytes.{Bytes, lookup, ◌==◌, ==_sound}
use pigo.Base.Maps.{lookup-assign}
use pigo.Pipeline.Cdc.{Event}
use pigo.Pipeline.Manager.{Sink}
use pigo.Pipeline.Process.{Channel, Channels, send, offer, distribute_to_sinks}

-- how many of the sinks have the name
abbrev pub count_sinks : Bytes → List Sink → ℕ
count_sinks name [] = 0
count_sinks name (s ∷ sinks) =
    if s.name == name then suc (count_sinks name sinks) else count_sinks name sinks

-- n copies of an event
abbrev pub copies : ℕ → Event → List Event
copies zero e = []
copies (suc n) e = e ∷ copies n e

-- A channel with n copies behind its queue, but no more than it has room for.
abbrev pub filled : ℕ → Event → Channel → Channel
filled n e c = record c { queue = c.queue ++ take (c.capacity - length c.queue) (copies n e) }

abbrev pub fill : ℕ → Event → Option Channel → Option Channel
fill n e none = none
fill n e (some c) = some (filled n e c)

take_nil : (n : ℕ) → take {A = Event} n [] ≡ []
take_nil zero = refl
take_nil (suc n) = refl

room_left :
    (cap : ℕ) (q xs : List Event) (e : Event)
    → length q < cap
    → (q ++ e ∷ []) ++ take (cap - length (q ++ e ∷ [])) xs ≡ q ++ take (cap - length q) (e ∷ xs)
room_left cap q xs e h =
    let n : cap - length q ≡ suc (cap - length (q ++ e ∷ [])) =
      omega (arith, h, length-append q (e ∷ [])) in
    rw n (append_assoc q (e ∷ []) (take (cap - length (q ++ e ∷ [])) xs))

filled-zero : (e : Event) (c : Channel) → filled 0 e c ≡ c
filled-zero e c =
    ap (λ q. record c { queue = q })
      (ap (λ xs. c.queue ++ xs) (take_nil (c.capacity - length c.queue)) ∙ append-nil c.queue)

filled-suc : (n : ℕ) (e : Event) (c : Channel) → filled n e (send e c) ≡ filled (suc n) e c
unfolding send
filled-suc n e c = go (ltb (length c.queue) c.capacity) refl
  where
    go :
        (b : Bool)
        → ltb (length c.queue) c.capacity ≡ b
        → filled n e (if b then record c { queue = c.queue ++ e ∷ [] } else c) ≡ filled (suc n) e c
    go true h =
        ap (λ q. record c { queue = q })
          (room_left c.capacity c.queue (copies n e) e (omega (arith, lt_of_ltb _ _ h)))
    go false h =
        let none_left : c.capacity - length c.queue ≡ 0 = omega (arith, le_of_ltb _ _ h) in
        ap (λ m. record c { queue = c.queue ++ m })
          (ap (λ m. take m (copies n e)) none_left
            ∙ sym (ap (λ m. take m (copies (suc n) e)) none_left))

fill-zero : (e : Event) (o : Option Channel) → fill 0 e o ≡ o
fill-zero e none = refl
fill-zero e (some c) = ap some (filled-zero e c)

fill-offer :
    (s : Sink) (n : ℕ) (e : Event) (cs : Channels) (name : Bytes)
    → fill n e (lookup name (offer s e cs))
      ≡ fill (if s.name == name then suc n else n) e (lookup name cs)
fill-offer s n e cs name = elim (Option-cases (lookup s.name cs)) [
  | inl h ↦ ground (arith, h, ==_sound s.name name)
  | inr (c, h) ↦
      ground
        (arith, h, ==_sound s.name name, lookup-assign s.name name (send e c) cs, filled-suc n e c)
]

-- An event that is distributed reaches the channel of each sink once for each time that the pipeline
-- lists the sink, behind what the channel holds, as long as the channel has room; every other channel
-- stays as it is.
pub distribute_lem :
    (sinks : List Sink) (e : Event) (cs : Channels) (name : Bytes)
    → lookup name (distribute_to_sinks sinks e cs)
      ≡ fill (count_sinks name sinks) e (lookup name cs)
unfolding distribute_to_sinks
distribute_lem [] e cs name = sym (fill-zero e (lookup name cs))
distribute_lem (s ∷ sinks) e cs name =
    distribute_lem sinks e (offer s e cs) name ∙ fill-offer s (count_sinks name sinks) e cs name
