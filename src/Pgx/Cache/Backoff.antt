-- ===== src/Pgx/Cache/Backoff.antt =====
-- reconnectWithBackoff of pkg/pgx/schema/schema.go: how long it waits before an attempt.
use pigo.Base.{le_of_ltb, Bool-cases, refl, ◌∙◌, inl, inr}
use native.Mathlib.Nat.{mul_assoc, pow-suc, mul-le-mul_left}
use pigo.Base.{
  if◌then◌else◌, ltb, ℕ, zero, suc, ◌*◌, ◌^◌, ◌≤◌, ◌≡◌, Bool, true, false, some, List, [], ◌∷◌,
  arith, get_elem?,
}
use pigo.Pgx.Cache.{reconnect_waits, max_backoff}

abbrev min : ℕ → ℕ → ℕ
min a b = if ltb a b then a else b

pow_positive : (n : ℕ) → 1 ≤ 2 ^ n
pow_positive zero = omega arith
pow_positive (suc n) = omega (arith, pow_positive n)

le_times : (b x p : ℕ) → b ≤ x → 1 ≤ p → b ≤ x * p
le_times b x p h one = grind (arith, h, one, mul-le-mul_left x one)

doubled : (a n : ℕ) → a * 2 ^ suc n ≡ a * 2 * 2 ^ n
doubled a n = grind (arith, pow-suc 2 n, mul_assoc a 2 (2 ^ n))

-- a bound that is reached stays reached
double_min : (a b n : ℕ) → a ≤ b → min (min (a * 2) b * 2 ^ n) b ≡ min (a * 2 ^ suc n) b
double_min a b n h =
    let same = doubled a n in
    elim (Bool-cases (ltb (a * 2) b)) [
      | inl less ↦ rw (less, same) refl
      | inr reached ↦
          let full : b ≤ b * 2 ^ n = le_times b b (2 ^ n) (omega arith) (pow_positive n) in
          let over : b ≤ a * 2 * 2 ^ n =
            le_times b (a * 2) (2 ^ n) (le_of_ltb (a * 2) b reached) (pow_positive n) in
          rw (reached, same) (ground (arith, full, over))
    ]

reconnect_waits-closed :
    (oks : List Bool) (backoff i wait : ℕ)
    → backoff ≤ max_backoff
    → get_elem? (reconnect_waits backoff oks) i ≡ some wait
    → wait ≡ min (backoff * 2 ^ i) max_backoff
unfolding reconnect_waits
reconnect_waits-closed [] backoff i wait h e = cc
reconnect_waits-closed (ok ∷ oks) backoff zero wait h e = ground (arith, h, e)
reconnect_waits-closed (true ∷ oks) backoff (suc i) wait h e = cc
reconnect_waits-closed (false ∷ oks) backoff (suc i) wait h e =
    reconnect_waits-closed oks (min (backoff * 2) max_backoff) i wait (ground arith) e
    ∙ double_min backoff max_backoff i h

-- Before the attempt to reconnect with the number i, from 0, reconnectWithBackoff waits 2 ^ i seconds or
-- two minutes, whichever is less, in nanoseconds and without the jitter.
pub backoff_doubles_up_to_two_minutes :
    (oks : List Bool) (i wait : ℕ)
    → get_elem? (reconnect_waits 1_000_000_000 oks) i ≡ some wait
    → wait
      ≡ (if ltb (1_000_000_000 * 2 ^ i) max_backoff then 1_000_000_000 * 2 ^ i else max_backoff)
backoff_doubles_up_to_two_minutes oks i wait e =
    reconnect_waits-closed oks 1_000_000_000 i wait (omega arith) e
