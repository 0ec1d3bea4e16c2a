-- ===== src/Rest/Filter/Parser.antt =====
-- filterParser of pkg/rest/filter.go: the reading of tokens. A parser is the unread rest
-- `src[pos:]` with `pos`; `advance n` is `pos += n`, and the bytes that it passes are `src[start:pos]`.

use pigo.Base.{
  ℕ, zero, suc, ◌+◌, Bool, true, false, not, ◌&&◌, ◌||◌, Option, none, some, List, [], ◌∷◌, eqb,
  length, take, drop, is_empty, take_while, if◌then◌else◌,
}
use pigo.Base.Bytes.{Bytes, codes, has_prefix, contains_byte, split}
use pigo.Base.Utf8.{decode_rune}
use pigo.Rest.Error.{Message, token, said, Found, end_of_input, rune_at, Error, syntax, out_of_fuel}
use pigo.Rest.Error.{Result, ok, err}

pub record Parser : Type 0 where
  pub rest : Bytes
  pub pos : ℕ

abbrev pub parser : Bytes → Parser
parser src = record { rest = src; pos = 0 }

abbrev pub advance : ℕ → Parser → Parser
advance n p = record { rest = drop n p.rest; pos = p.pos + n }

-- A method of the parser that may fail. A failure ends the parse of the whole filter, so the
-- position that it leaves is never read.
abbrev pub Parse {ℓ} : Type ℓ → Type ℓ
Parse A = Parser → Result (A × Parser)

infixl 5 ◌>>=◌ ◌>>◌
unfoldable pub ◌>>=◌ {ℓ κ} : {A : Type ℓ} {B : Type κ} → Parse A → (A → Parse B) → Parse B
◌>>=◌ m f p = elim (m p) [ ok (a, p') ↦ f a p' | err e ↦ err e ]

abbrev pub ◌>>◌ {ℓ κ} : {A : Type ℓ} {B : Type κ} → Parse A → Parse B → Parse B
m >> n = m >>= λ _. n

unfoldable pub pure {ℓ} : {A : Type ℓ} → A → Parse A
pure a p = ok (a, p)

unfoldable pub raise {ℓ} : {A : Type ℓ} → Error → Parse A
raise e p = err e

abbrev pub found : Parser → Found
found p = if is_empty p.rest then end_of_input else rune_at (decode_rune p.rest).0 (p.pos + 1)

unfoldable pub errorf {ℓ} : {A : Type ℓ} → Message → Parse A
errorf msg p = err (syntax msg (found p))

unfoldable pub eof : Parse Bool
eof p = ok (is_empty p.rest, p)

abbrev pub head_byte : Bytes → ℕ
head_byte [] = 0
head_byte (c ∷ s) = c

unfoldable pub peek : Parse ℕ
peek p = ok (head_byte p.rest, p)

unfoldable pub consume : Bytes → Parse Bool
consume s p = if has_prefix p.rest s then ok (true, advance (length s) p) else ok (false, p)

unfoldable pub expect : Bytes → Parse (Unit {0})
expect s = do got ← consume s; if got then pure tt else errorf (token s)

unfoldable pub expect_eof : Parse (Unit {0})
expect_eof = do done ← eof; if done then pure tt else errorf (said (codes "unexpected input"))

-- the loops `for !p.eof() && test(p.src[p.pos]) { p.pos++ }`, with the bytes that they pass
unfoldable pub scan : (ℕ → Bool) → Parse Bytes
scan test p = let s = take_while test p.rest in ok (s, advance (length s) p)

unfoldable pub skip_spaces : Parse Bytes
skip_spaces = scan (λ c. contains_byte c (32 ∷ 9 ∷ 13 ∷ 10 ∷ []))

unfoldable pub until : Bytes → Parse Bytes
until stops = scan (λ c. not (contains_byte c stops))

-- The loop of `quoted`, behind the opening quote: the text, and the count of bytes read up to and
-- with the closing quote.
abbrev pub push : ℕ → ℕ → Option (Bytes × ℕ) → Option (Bytes × ℕ)
push c n none = none
push c n (some (s, k)) = some (c ∷ s, n + k)

unfoldable pub unquote : Bytes → Option (Bytes × ℕ)
unquote [] = none
unquote (c ∷ []) = if eqb c b'"' then some ([], 1) else none
unquote (c ∷ d ∷ s) =
    let escaped = push d 2 (unquote s) in
    let plain = push c 1 (unquote (d ∷ s)) in
    if eqb c b'\\' then escaped else if eqb c b'"' then some ([], 1) else plain

-- `none` is the result "", false; the position has not moved then.
abbrev pub opened : Bytes → Option (Bytes × ℕ)
opened [] = none
opened (c ∷ s) = if eqb c b'"' then unquote s else none

unfoldable pub quoted : Parser → Option (Bytes × Parser)
quoted p = elim (opened p.rest) [ none ↦ none | some (s, n) ↦ some (s, advance (n + 1) p) ]

abbrev pub ends_element : Bytes → Bool
ends_element [] = true
ends_element (c ∷ s) = eqb c b',' || eqb c b')'

-- a quoted text that is directly followed by "," or ")" or the end; otherwise nothing is read
unfoldable pub quoted_element : Parser → Option (Bytes × Parser)
quoted_element p = elim (quoted p) [
  | none ↦ none
  | some (s, p') ↦ if ends_element p'.rest then some (s, p') else none
]

-- A {...} literal that holds no further brace: its count of bytes.
abbrev pub braced : Bytes → Option ℕ
braced [] = none
braced (c ∷ s) =
    let body = take_while (λ d. not (contains_byte d (codes "{}"))) s in
    if eqb c b'{' && eqb (head_byte (drop (length body) s)) b'}'
    then some (length body + 2)
    else none

unfoldable pub operand_in_tree : Parse Bytes
operand_in_tree p = elim (quoted_element p) [
  | some (v, p') ↦ ok (v, p')
  | none ↦ elim (braced p.rest) [
    | some n ↦ ok (take n p.rest, advance n p)
    | none ↦ until (codes ",)") p
  ]
]

unfoldable pub operand : Bool → Parse Bytes
operand false p = ok (p.rest, advance (length p.rest) p)
operand true p = operand_in_tree p

-- One element of a list; `none` is the `break` at the empty list ().
unfoldable pub element : Bool → Parse (Option Bytes)
element first p = elim (quoted_element p) [
  | some (v, p') ↦ ok (some v, p')
  | none ↦
      (do
        item ← until (codes ",)")
        next ← peek
        pure (if is_empty item && first && eqb next b')' then none else some item))
        p
]

unfoldable pub elements : ℕ → Bool → Parse (List Bytes)
elements zero first = raise out_of_fuel
elements (suc f) first = do
  item ← element first
  elim item [
    | none ↦ pure []
    | some v ↦ do
      more ← consume (codes ",")
      if more then (do vs ← elements f false; pure (v ∷ vs)) else pure (v ∷ [])
  ]

unfoldable pub all_elements : Parse (List Bytes)
all_elements p = elements (suc (length p.rest)) true p

-- the older form without parentheses, in.a,b,c
unfoldable pub bare_list : Bool → Parse (List Bytes)
bare_list in_tree p =
    if in_tree || is_empty p.rest
    then errorf (token (codes "(")) p
    else ok (split b',' p.rest, advance (length p.rest) p)

unfoldable pub list_operand : Bool → Parse (List Bytes)
list_operand in_tree = do
  parens ← consume (codes "(")
  if parens
      then (do skip_spaces; items ← all_elements; expect (codes ")"); skip_spaces; pure items)
      else bare_list in_tree
