-- ===== src/Rest/Filter/Names.antt =====
-- filterParser.name, arrayIndex and jsonPath of pkg/rest/filter.go: the left-hand side of a filter.
use pigo.Base.{
  ℕ, zero, suc, ◌+◌, ◌-◌, ◌*◌, ◌^◌, Bool, true, false, not, ◌&&◌, ◌||◌, Option, none, some, List,
  [], ◌∷◌, ltb, leb, eqb, length, take, drop, is_empty, take_while, if◌then◌else◌,
}
use pigo.Base.Int.{ℤ, pos, neg}
use pigo.Base.Bytes.{Bytes, codes}
use pigo.Base.Utf8.{Unicode, decode_rune, is_letter, is_ascii_digit}
use pigo.Rest.Error.{said, out_of_fuel, ok}
use pigo.Rest.Filter.{JsonPathStep}
use pigo.Rest.Filter.Parser.{Parse, ◌>>=◌, pure, raise, errorf, consume, quoted, head_byte, advance}

-- strconv.ParseInt(_, 10, 32) on digits behind an optional sign: `none` out of int32's range
unfoldable pub digits_value : ℕ → Bytes → ℕ
digits_value acc [] = acc
digits_value acc (c ∷ s) = digits_value (acc * 10 + (c - 48)) s

abbrev pub parse_int32 : Bool → Bytes → Option ℤ
parse_int32 minus digits =
    let n = digits_value 0 digits in
    if minus
    then (if leb n (2 ^ 31) then some (neg n) else none)
    else (if ltb n (2 ^ 31) then some (pos n) else none)

-- the arrow of a step, if one starts here
unfoldable pub arrow_at : Parse (Option Bytes)
arrow_at = do
  text ← consume (codes "->>")
  if text
      then pure (some (codes "->>"))
      else do json ← consume (codes "->"); if json then pure (some (codes "->")) else pure none

module _ (u : Unicode) where
  unfoldable pub is_name_rune : ℕ → Bool
  is_name_rune r = is_letter u r || is_ascii_digit r || eqb r b'_' || eqb r b'$' || eqb r b' '

  -- nameRuneAt(i), on the input from i
  unfoldable pub name_rune_at : Bytes → Bool
  name_rune_at [] = false
  name_rune_at (c ∷ s) = is_name_rune (decode_rune (c ∷ s)).0

  -- The test of the loop of `name` at an input: `started` is `p.pos > start`.
  unfoldable pub name_goes_on : Bool → Bytes → Bool
  name_goes_on started s =
      is_name_rune (decode_rune s).0
      || (eqb (decode_rune s).0 b'-' && started && name_rune_at (drop 1 s))

  -- The loop of `name`: how many bytes it passes. `inside` counts the bytes left of a rune whose
  -- test has passed, so that `p.pos += size` is one byte at a time.
  unfoldable pub name_length : ℕ → Bool → Bytes → ℕ
  name_length inside started [] = 0
  name_length (suc inside) started (c ∷ s) = suc (name_length inside true s)
  name_length zero started (c ∷ s) =
      let more = name_length ((decode_rune (c ∷ s)).1 - 1) true s in
      if name_goes_on started (c ∷ s) then suc more else 0

  unfoldable pub bare_name : Parse Bytes
  bare_name p =
      let n = name_length 0 false p.rest in
      if eqb n 0
      then errorf (said (codes "expected a column name")) p
      else ok (take n p.rest, advance n p)

  unfoldable pub name : Parse Bytes
  name p =
      if eqb (head_byte p.rest) b'"'
      then elim (quoted p) [
        | none ↦ errorf (said (codes "unterminated quoted name")) p
        | some (s, p') ↦ ok (s, p')
      ]
      else bare_name p

  -- what follows an index must not go on as a key
  abbrev pub index_ends : Bytes → Bool
  index_ends s = not (name_rune_at s || (eqb (head_byte s) b'-' && name_rune_at (drop 1 s)))

  unfoldable pub array_index_at : Bool → Bytes → Option (ℤ × ℕ)
  array_index_at minus s =
      let digits = take_while is_ascii_digit s in
      let rest = drop (length digits) s in
      if is_empty digits || not (index_ends rest) then none else elim (parse_int32 minus digits) [
        | none ↦ none
        | some i ↦ some (i, if minus then length digits + 1 else length digits)
      ]

  unfoldable pub array_index : Bytes → Option (ℤ × ℕ)
  array_index s =
      if eqb (head_byte s) b'-' then array_index_at true (drop 1 s) else array_index_at false s

  unfoldable pub path_step : Bytes → Parse JsonPathStep
  path_step arrow p = elim (array_index p.rest) [
    | some (i, n) ↦ ok (record { arrow = arrow; key = []; index = i; is_index = true }, advance n p)
    | none ↦
        (do key ← name; pure (record { arrow = arrow; key = key; index = pos 0; is_index = false }))
          p
  ]

  unfoldable pub path_steps : ℕ → Parse (List JsonPathStep)
  path_steps zero = raise out_of_fuel
  path_steps (suc f) = do
    arrow ← arrow_at
    elim arrow [
      | none ↦ pure []
      | some a ↦ do step ← path_step a; steps ← path_steps f; pure (step ∷ steps)
    ]

  -- Every step but the last round reads an arrow, so the fuel is more than the rounds.
  unfoldable pub json_path : Parse (List JsonPathStep)
  json_path p = path_steps (suc (length p.rest)) p
