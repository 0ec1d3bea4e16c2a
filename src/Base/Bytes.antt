-- ===== src/Base/Bytes.antt =====
-- Go strings as lists of bytes, with the functions of package strings that the program calls.
use pigo.Base.{Bool-cases, eqb_refl, ap, inl, inr}
use Prim.Native.Char.{code}
use Prim.Native.Nat.{ℕ, zero, suc, ◌+◌, ◌/◌, ◌%◌}
use Prim.Native.String.{String}
use mathlib.Core.Path.{◌≡◌, refl}
use mathlib.Core.Logic.{◌↔◌}
use mathlib.Core.Bool.{Bool, true, false, ◌&&◌}
use mathlib.Core.Option.{Option, none, some}
use mathlib.Core.List.{List, [], ◌∷◌, ◌++◌}
use native.Mathlib.Omega.{arith}
use pigo.Base.Tests.{ltb, eqb, if◌then◌else◌}
use mathlib.Core.List.{reverse, append_assoc}
use Prim.Native.Nat.{◌-◌}
use pigo.Base.Lists.{any, take, length}

abbrev pub Bytes : Type 0
Bytes = List ℕ

-- A string literal of the source, which is ASCII there.
abbrev pub codes : String → Bytes
codes String.[] = []
codes (String.◌∷◌ c s) = code c ∷ codes s

infix 50 ◌==◌
unfoldable pub ◌==◌ : Bytes → Bytes → Bool
[] == [] = true
[] == (d ∷ t) = false
(c ∷ s) == [] = false
(c ∷ s) == (d ∷ t) = eqb c d && (s == t)

pub ==_refl : (s : Bytes) → (s == s) ≡ true
unfolding ◌==◌
==_refl [] = refl
==_refl (c ∷ s) = ground (arith, ==_refl s)

pub ==_sound : (s t : Bytes) → (s == t) ≡ true → s ≡ t
unfolding ◌==◌
==_sound [] [] h = refl
==_sound [] (d ∷ t) h = cc
==_sound (c ∷ s) [] h = cc
==_sound (c ∷ s) (d ∷ t) h = ground (arith, ==_sound s t)

pub ==_iff : (s t : Bytes) → ((s == t) ≡ true) ↔ (s ≡ t)
==_iff s t = (==_sound s t, λ e. rw e (==_refl t))

-- strings.HasPrefix
unfoldable pub has_prefix : Bytes → Bytes → Bool
has_prefix s [] = true
has_prefix [] (d ∷ p) = false
has_prefix (c ∷ s) (d ∷ p) = eqb c d && has_prefix s p

pub has_prefix-append : (p s : Bytes) → has_prefix (p ++ s) p ≡ true
unfolding has_prefix
has_prefix-append [] s = refl
has_prefix-append (c ∷ p) s = ground (arith, has_prefix-append p s)

-- strings.IndexByte(s, c) >= 0
unfoldable pub contains_byte : ℕ → Bytes → Bool
contains_byte c s = any (λ d. eqb d c) s

-- strings.Join
unfoldable pub join : Bytes → List Bytes → Bytes
join sep [] = []
join sep (s ∷ []) = s
join sep (s ∷ t ∷ ts) = s ++ sep ++ join sep (t ∷ ts)

-- A part that opens at the head: the rest of the split goes on in it.
abbrev pub extend : ℕ → List Bytes → List Bytes
extend c [] = (c ∷ []) ∷ []
extend c (p ∷ ps) = (c ∷ p) ∷ ps

-- strings.Split by one byte
unfoldable pub split : ℕ → Bytes → List Bytes
split sep [] = [] ∷ []
split sep (c ∷ s) = let rest = split sep s in if eqb c sep then [] ∷ rest else extend c rest

-- A map literal of the source as an association list.
unfoldable pub lookup {ℓ} : {V : Type ℓ} → Bytes → List (Bytes × V) → Option V
lookup k [] = none
lookup k ((j, v) ∷ m) = if j == k then some v else lookup k m

-- m[k] of a map to strings, "" where the key is missing
unfoldable pub index_map : Bytes → List (Bytes × Bytes) → Bytes
unfolding lookup
index_map k m = elim (lookup k m) [ none ↦ [] | some v ↦ v ]

-- strconv.Itoa of a number that is not negative. The fuel bounds the count of digits, and
-- `decimal` gives enough: a number has no more digits than its value plus one.
decimal_digits : ℕ → ℕ → Bytes
decimal_digits zero n = []
decimal_digits (suc f) n =
    let more = decimal_digits f (n / 10) in
    if ltb n 10 then (48 + n) ∷ [] else more ++ (48 + n % 10) ∷ []

unfoldable pub decimal : ℕ → Bytes
unfolding decimal_digits
decimal n = decimal_digits (suc n) n

-- strings.HasSuffix, and the text without the suffix
unfoldable pub has_suffix : Bytes → Bytes → Bool
has_suffix s t = has_prefix (reverse s) (reverse t)

unfoldable pub trim_suffix : Bytes → Bytes → Bytes
trim_suffix s t = if has_suffix s t then take (length s - length t) s else s

abbrev pub head_or : Bytes → List Bytes → Bytes
head_or default [] = default
head_or default (s ∷ ss) = s

-- strings.Trim of slashes
unfoldable pub trim_slashes : Bytes → Bytes
trim_slashes s = reverse (left (reverse (left s)))
  where
    left : Bytes → Bytes
    left [] = []
    left (c ∷ t) = if eqb c 47 then left t else c ∷ t

-- strings.ReplaceAll of a text that is not empty: `skip` bytes of it are left to pass.
unfoldable pub replace_from : Bytes → Bytes → ℕ → Bytes → Bytes
unfolding has_prefix
replace_from old new skip [] = []
replace_from old new (suc skip) (c ∷ s) = replace_from old new skip s
replace_from old new zero (c ∷ s) = elim (has_prefix (c ∷ s) old) [
  | true ↦ new ++ replace_from old new (length old - 1) s
  | false ↦ c ∷ replace_from old new 0 s
]

unfoldable pub replace_all : Bytes → Bytes → Bytes → Bytes
unfolding replace_from
replace_all old new s = replace_from old new 0 s

-- A split at a separator that is no part of what stands before it.
pub split_whole : (sep : ℕ) (s : Bytes) → contains_byte sep s ≡ false → split sep s ≡ s ∷ []
unfolding split contains_byte
split_whole sep [] h = refl
split_whole sep (c ∷ s) h = ground (arith, h, split_whole sep s)

split_head : (sep : ℕ) (s : Bytes) → (p : Bytes) × (ps : List Bytes) × (split sep s ≡ p ∷ ps)
unfolding split
split_head sep [] = ([], [], refl)
split_head sep (c ∷ s) =
    let (p, ps, e) = split_head sep s in
    elim (Bool-cases (eqb c sep)) [
      | inl here ↦ ([], split sep s, rw here refl)
      | inr there ↦ (c ∷ p, ps, rw (there, e) refl)
    ]

-- The parts of two texts with a separator between them are the parts of both.
pub split-append : (sep : ℕ) (s t : Bytes) → split sep (s ++ sep ∷ t) ≡ split sep s ++ split sep t
unfolding split
split-append sep [] t = rw (eqb_refl sep) refl
split-append sep (c ∷ s) t =
    let (p, ps, e) = split_head sep s in
    elim (Bool-cases (eqb c sep)) [
      | inl here ↦ rw here (ap (λ ps. [] ∷ ps) (split-append sep s t))
      | inr there ↦ rw (there, split-append sep s t, e) refl
    ]

pub split-around :
    (sep : ℕ) (s t : Bytes) → split sep (s ++ (sep ∷ []) ++ t) ≡ split sep s ++ split sep t
split-around sep s t = rw (append_assoc s (sep ∷ []) t) (split-append sep s t)
