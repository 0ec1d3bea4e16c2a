-- ===== src/Base/Utf8.antt =====
-- utf8.DecodeRuneInString, and what package unicode says of runes past ASCII.
use pigo.Base.{ℕ, ◌+◌, ◌-◌, ◌*◌, Bool, ◌&&◌, ◌||◌, [], ◌∷◌, leb, ltb, eqb, all, map, if◌then◌else◌}
use mathlib.Core.List.{reverse}
use pigo.Base.{Option}
use pigo.Base.Int.{ℤ}
use pigo.Base.Bytes.{Bytes}

abbrev pub rune_error : ℕ
rune_error = 65533

-- a continuation byte
abbrev is_cont : ℕ → Bool
is_cont c = leb 128 c && leb c 191

abbrev bad_rune : ℕ × ℕ
bad_rune = (rune_error, 1)

decode_two : ℕ → Bytes → ℕ × ℕ
decode_two c [] = bad_rune
decode_two c (d ∷ s) = if is_cont d then ((c - 192) * 64 + (d - 128), 2) else bad_rune

-- Of three bytes, the second has a range of its own: no overlong form and no surrogate.
abbrev second_of_three : ℕ → ℕ → Bool
second_of_three c d =
    if eqb c 224
    then leb 160 d && leb d 191
    else if eqb c 237
    then leb 128 d && leb d 159
    else is_cont d

decode_three : ℕ → Bytes → ℕ × ℕ
decode_three c (d ∷ e ∷ s) =
    if second_of_three c d && is_cont e
    then ((c - 224) * 4096 + (d - 128) * 64 + (e - 128), 3)
    else bad_rune
decode_three c s = bad_rune

abbrev second_of_four : ℕ → ℕ → Bool
second_of_four c d =
    if eqb c 240
    then leb 144 d && leb d 191
    else if eqb c 244
    then leb 128 d && leb d 143
    else is_cont d

decode_four : ℕ → Bytes → ℕ × ℕ
decode_four c (d ∷ e ∷ f ∷ s) =
    if second_of_four c d && is_cont e && is_cont f
    then ((c - 240) * 262144 + (d - 128) * 4096 + (e - 128) * 64 + (f - 128), 4)
    else bad_rune
decode_four c s = bad_rune

-- The first rune and its count of bytes; a byte that starts no rune is RuneError of size 1.
unfoldable pub decode_rune : Bytes → ℕ × ℕ
unfolding decode_two decode_three decode_four
decode_rune [] = (rune_error, 0)
decode_rune (c ∷ s) =
    if ltb c 128
    then (c, 1)
    else if leb 194 c && leb c 223
    then decode_two c s
    else if leb 224 c && leb c 239
    then decode_three c s
    else if leb 240 c && leb c 244
    then decode_four c s
    else bad_rune

-- The tables of package unicode, past ASCII: a parameter of all that reads text. `lower`,
-- `trim_space` and `scan_int` are strings.ToLower, strings.TrimSpace and fmt.Sscanf with %d on texts
-- that are not all ASCII.
pub record Unicode : Type 0 where
  pub letter : ℕ → Bool
  pub lower : Bytes → Bytes
  pub trim_space : Bytes → Bytes
  pub scan_int : Bytes → Option ℤ

abbrev pub is_ascii_letter : ℕ → Bool
is_ascii_letter c = (leb b'a' c && leb c b'z') || (leb b'A' c && leb c b'Z')

abbrev pub is_ascii_digit : ℕ → Bool
is_ascii_digit c = leb b'0' c && leb c b'9'

-- unicode.IsLetter
abbrev pub is_letter : Unicode → ℕ → Bool
is_letter u r = if ltb r 128 then is_ascii_letter r else u.letter r

abbrev pub lower_byte : ℕ → ℕ
lower_byte c = if leb b'A' c && leb c b'Z' then c + 32 else c

abbrev pub is_ascii : Bytes → Bool
is_ascii s = all (λ c. ltb c 128) s

-- strings.ToLower: Go maps the bytes of an ASCII text, and the runes of any other.
unfoldable pub to_lower : Unicode → Bytes → Bytes
to_lower u s = if is_ascii s then map lower_byte s else u.lower s

-- the white space of ASCII
abbrev pub is_space : ℕ → Bool
is_space c = eqb c 32 || (leb 9 c && leb c 13)

unfoldable pub drop_while : (ℕ → Bool) → Bytes → Bytes
drop_while p [] = []
drop_while p (c ∷ s) = if p c then drop_while p s else c ∷ s

-- the text without the bytes at both ends that pass the test
unfoldable pub trim_func : (ℕ → Bool) → Bytes → Bytes
trim_func p s = reverse (drop_while p (reverse (drop_while p s)))

-- strings.TrimSpace
unfoldable pub trim_space : Unicode → Bytes → Bytes
trim_space u s = if is_ascii s then trim_func is_space s else u.trim_space s
