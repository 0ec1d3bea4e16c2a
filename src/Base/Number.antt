-- ===== src/Base/Number.antt =====
-- strconv.Atoi and strconv.ParseInt(_, 10, 64), on integers of 64 bits.
use pigo.Base.{
  ℕ, ◌+◌, ◌-◌, ◌*◌, ◌^◌, not, ◌&&◌, ◌||◌, Option, none, some, [], ◌∷◌, ltb, leb, eqb, if◌then◌else◌,
  is_empty, all,
}
use pigo.Base.Int.{ℤ, pos, neg}
use pigo.Base.Bytes.{Bytes}

unfoldable pub decimal_value : ℕ → Bytes → ℕ
decimal_value acc [] = acc
decimal_value acc (c ∷ s) = decimal_value (acc * 10 + (c - 48)) s

unfoldable pub unsigned : Bytes → Option ℕ
unfolding decimal_value
unsigned s =
    if is_empty s || not (all (λ c. leb 48 c && leb c 57) s) then none else some (decimal_value 0 s)

-- none where the text is no number, or out of range
unfoldable pub atoi : Bytes → Option ℤ
unfolding unsigned
atoi [] = none
atoi (c ∷ s) =
    if eqb c 45
    then elim (unsigned s) [ none ↦ none | some n ↦ if leb n (2 ^ 63) then some (neg n) else none ]
    else elim (unsigned (if eqb c 43 then s else c ∷ s)) [
      | none ↦ none
      | some n ↦ if ltb n (2 ^ 63) then some (pos n) else none
    ]
