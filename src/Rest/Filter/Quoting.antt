-- ===== src/Rest/Filter/Quoting.antt =====
-- pkg/rest/filter.go: the quoting of pgArrayLiteral and that of the parser.
use mathlib.Core.Path.{subst}
use mathlib.Core.List.{append_assoc}
use pigo.Base.{
  ℕ, suc, zero, ◌+◌, ◌≤◌, ◌≡◌, refl, sym, ap, ◌∙◌, Bool, true, false, some, List, [], ◌∷◌, ◌++◌,
  map, arith, length, drop, is_empty, take_while, length-append, eqb, ◌||◌,
}
use pigo.Base.Bytes.{has_prefix, Bytes, codes, join, contains_byte}
use pigo.Rest.Arrays.{escape, quote_element}
use pigo.Rest.Error.{Result, ok}
use pigo.Rest.Filter.Parser.{
  pure, ◌>>=◌, until, peek, consume, expect, skip_spaces, Parser, push, unquote, quoted,
  quoted_element, ends_element, element, elements, all_elements, list_operand, consume, scan,
}

unquote-plain :
    (c : ℕ) (s : Bytes)
    → is_empty s ≡ false
    → (eqb c b'"' || eqb c b'\\') ≡ false
    → unquote (c ∷ s) ≡ push c 1 (unquote s)
unfolding unquote
unquote-plain c [] h k = cc
unquote-plain c (d ∷ s) h k = ground (arith, k)

nonempty : (s t : Bytes) (c : ℕ) → is_empty (s ++ c ∷ t) ≡ false
nonempty [] t c = refl
nonempty (d ∷ s) t c = refl

-- An escaped text in front of a quote is read back.
unquote-escape :
    (s tail : Bytes) → unquote (escape s ++ b'"' ∷ tail) ≡ some (s, length (escape s) + 1)
unfolding escape unquote
unquote-escape [] [] = refl
unquote-escape [] (c ∷ tail) = refl
unquote-escape (c ∷ s) tail = ground (
  arith,
  unquote-escape s tail,
  unquote-plain c (escape s ++ b'"' ∷ tail) (nonempty (escape s) tail b'"'),
)

-- the parser at a text
abbrev pub at : Bytes → ℕ → Parser
at rest pos = record { rest = rest; pos = pos }

-- a text in quotes, with `tail` behind
abbrev pub in_quotes : Bytes → Bytes → Bytes
in_quotes s tail = b'"' ∷ (escape s ++ b'"' ∷ tail)

drop-behind : (s tail : Bytes) (c : ℕ) → drop (length s + 1) (s ++ c ∷ tail) ≡ tail
drop-behind [] tail c = refl
drop-behind (d ∷ s) tail c =
    let e : suc (length s) + 1 ≡ suc (length s + 1) = omega arith in rw e (drop-behind s tail c)

drop-quoted : (s tail : Bytes) → drop (length (escape s) + 1 + 1) (in_quotes s tail) ≡ tail
drop-quoted s tail =
    let n = length (escape s) + 1 in
    let e : n + 1 ≡ suc n = omega arith in rw e (drop-behind (escape s) tail b'"')

quoted_element-in_quotes :
    (s tail : Bytes) (n : ℕ)
    → ends_element tail ≡ true
    → quoted_element (at (in_quotes s tail) n) ≡ some (s, at tail (n + (length (escape s) + 1 + 1)))
unfolding quoted_element quoted
quoted_element-in_quotes s tail n h = ground (arith, h, unquote-escape s tail, drop-quoted s tail)

-- quoted elements with commas between them, and `tail` behind
abbrev pub listed : List Bytes → Bytes → Bytes
listed [] tail = tail
listed (s ∷ []) tail = in_quotes s tail
listed (s ∷ t ∷ vs) tail = in_quotes s (b',' ∷ listed (t ∷ vs) tail)

-- the result of a parse that ends in front of `tail`
abbrev pub Yields {ℓ} : {A : Type ℓ} → Result (A × Parser) → A → Bytes → Type ℓ
Yields r x tail = (m : ℕ) × (r ≡ ok (x, at tail m))

elements-listed :
    (f : ℕ) (s : Bytes) (vs : List Bytes) (first : Bool) (tail : Bytes) (n : ℕ)
    → length (s ∷ vs) ≤ f
    → Yields (elements f first (at (listed (s ∷ vs) (b')' ∷ tail)) n)) (s ∷ vs) (b')' ∷ tail)
unfolding elements element consume ◌>>=◌ pure until peek has_prefix
elements-listed zero s vs first tail n h = absurd (omega (arith, h))
elements-listed (suc f) s [] first tail n h = (
  n + (length (escape s) + 1 + 1),
  ground (arith, quoted_element-in_quotes s (b')' ∷ tail) n refl),
)
elements-listed (suc f) s (t ∷ vs) first tail n h =
    let m = n + (length (escape s) + 1 + 1) in
    let rest = elements-listed f t vs false tail (m + 1) (omega (arith, h)) in
    (
      rest.0,
      ground
          (arith, rest.1, quoted_element-in_quotes s (b',' ∷ listed (t ∷ vs) (b')' ∷ tail)) n refl),
    )

-- the text of a list, as the map of its elements joins up
join-listed :
    (s : Bytes) (vs : List Bytes) (tail : Bytes)
    → join (codes ",") (map quote_element (s ∷ vs)) ++ tail ≡ listed (s ∷ vs) tail
unfolding join quote_element
join-listed s [] tail = ap (λ x. b'"' ∷ x) (append_assoc (escape s) (b'"' ∷ []) tail)
join-listed s (t ∷ vs) tail =
    let e = escape s in
    let j = join (codes ",") (map quote_element (t ∷ vs)) in
    let l = listed (t ∷ vs) tail in
    ap (λ x. b'"' ∷ x)
      (append_assoc (e ++ (b'"' ∷ []) ++ (b',' ∷ [])) j tail
        ∙ (ap (λ x. e ++ (b'"' ∷ []) ++ (b',' ∷ []) ++ x) (join-listed t vs tail)
            ∙ (append_assoc (e ++ (b'"' ∷ [])) (b',' ∷ []) l
                ∙ append_assoc e (b'"' ∷ []) (b',' ∷ l))))

length-listed :
    (s : Bytes) (vs : List Bytes) (tail : Bytes) → length (s ∷ vs) ≤ length (listed (s ∷ vs) tail)
length-listed s [] tail = omega arith
length-listed s (t ∷ vs) tail =
    omega (
      arith,
      length-listed t vs tail,
      length-append (escape s) (b'"' ∷ b',' ∷ listed (t ∷ vs) tail),
    )

-- what skip_spaces leaves
abbrev pub unspaced : Bytes → Bytes
unspaced s = drop (length (take_while (λ c. contains_byte c (32 ∷ 9 ∷ 13 ∷ 10 ∷ [])) s)) s

spaces-listed :
    (s : Bytes) (vs : List Bytes) (tail : Bytes)
    → take_while (λ c. contains_byte c (32 ∷ 9 ∷ 13 ∷ 10 ∷ [])) (listed (s ∷ vs) tail) ≡ []
unfolding take_while contains_byte
spaces-listed s [] tail = refl
spaces-listed s (t ∷ vs) tail = refl

closed-listed :
    (in_tree : Bool) (vs : List Bytes) (tail : Bytes) (n : ℕ)
    → Yields (list_operand in_tree (at (b'(' ∷ listed vs (b')' ∷ tail)) n)) vs (unspaced tail)
unfolding list_operand all_elements skip_spaces scan expect consume ◌>>=◌ pure has_prefix
    contains_byte elements element until peek take_while quoted_element quoted
closed-listed in_tree [] tail n = (_, refl)
closed-listed in_tree (s ∷ vs) tail n =
    let l = listed (s ∷ vs) (b')' ∷ tail) in
    let rest =
      elements-listed (suc (length l)) s vs true tail (n + 1 + 0)
        (omega (arith, length-listed s vs (b')' ∷ tail))) in
    (
      rest.0 + 1 + length (take_while (λ c. contains_byte c (32 ∷ 9 ∷ 13 ∷ 10 ∷ [])) tail),
      ground (arith, rest.1, spaces-listed s vs (b')' ∷ tail)),
    )

joined : List Bytes → Bytes
joined vs = join (codes ",") (map quote_element vs)

joined-listed : (vs : List Bytes) (tail : Bytes) → joined vs ++ tail ≡ listed vs tail
unfolding joined join
joined-listed [] tail = refl
joined-listed (s ∷ vs) tail = join-listed s vs tail

-- Any list of byte strings, each written in quotes with its quotes and backslashes escaped as
-- pgArrayLiteral writes them, with commas between and in parentheses, is read back by the parser of
-- the operand of `in`, element for element, with the spaces behind it; what follows is left.
pub quoted_list_is_read_back :
    (in_tree : Bool) (vs : List Bytes) (tail : Bytes) (n : ℕ)
    → (m : ℕ) × (list_operand in_tree
          (at (codes "(" ++ join (codes ",") (map quote_element vs) ++ codes ")" ++ tail) n)
        ≡ ok (vs, at (unspaced tail) m))
unfolding joined
quoted_list_is_read_back in_tree vs tail n =
    let assoc = append_assoc (joined vs) (codes ")") tail in
    subst (λ text. Yields (list_operand in_tree (at (b'(' ∷ text) n)) vs (unspaced tail))
      (sym (assoc ∙ joined-listed vs (b')' ∷ tail))) (closed-listed in_tree vs tail n)
