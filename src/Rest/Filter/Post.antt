-- ===== src/Rest/Filter/Post.antt =====
-- About filterParser of pkg/rest/filter.go: conditions on what a parser returns, with a rule for each
-- token.
use pigo.Base.{
  ℕ, ◌+◌, ◌≤◌, ◌≡◌, Bool, true, false, [], ◌∷◌, arith, length, take_while, length-drop, Bool-cases,
  inl, inr, if◌then◌else◌,
}
use pigo.Base.Bytes.{Bytes, has_prefix}
use pigo.Rest.Error.{
  Message, Error, out_of_fuel, in_logic_tree, in_filter, in_filter_key, Result, ok, err,
}
use pigo.Rest.Filter.Parser.{
  Parser, Parse, ◌>>=◌, pure, raise, errorf, advance, consume, expect, scan, skip_spaces, until,
}

-- an error of the program: no loop of the model ran out of fuel
abbrev pub IsProper : Error → Type 0
IsProper out_of_fuel = ⊥
IsProper (in_logic_tree s e) = IsProper e
IsProper (in_filter s e) = IsProper e
IsProper (in_filter_key s e) = IsProper e
IsProper _ = Unit

module _ {A : Type 0} (P : A → Parser → Type 0) where
  abbrev pub Post : Result (A × Parser) → Type 0
  Post (ok (a, p)) = P a p
  Post (err e) = IsProper e

abbrev pub left : Parser → ℕ
left p = length p.rest

module _ {A B : Type 0} (P : A → Parser → Type 0) (Q : B → Parser → Type 0) where
  Post-result :
      (r : Result (A × Parser)) (f : A → Parse B)
      → Post P r
      → ((a : A) (p : Parser) → P a p → Post Q (f a p))
      → Post Q (elim r [ ok (a, p') ↦ f a p' | err e ↦ err e ])
  Post-result (ok (a, p)) f h k = k a p h
  Post-result (err e) f h k = h

  -- the rule for `do`
  pub Post-bind :
      (m : Parse A) (f : A → Parse B) (p : Parser)
      → Post P (m p)
      → ((a : A) (p' : Parser) → P a p' → Post Q (f a p'))
      → Post Q ((m >>= f) p)
  unfolding ◌>>=◌
  Post-bind m f p h k = Post-result (m p) f h k

pub Post-mono :
    {A : Type 0} (P Q : A → Parser → Type 0) (r : Result (A × Parser))
    → Post P r
    → ((a : A) (p : Parser) → P a p → Q a p)
    → Post Q r
Post-mono P Q (ok (a, p)) h k = k a p h
Post-mono P Q (err e) h k = h

pub Post-errorf :
    {A : Type 0} (Q : A → Parser → Type 0) (msg : Message) (p : Parser) → Post Q (errorf msg p)
unfolding errorf
Post-errorf Q msg p = tt

pub has_prefix-length : (s t : Bytes) → has_prefix s t ≡ true → length t ≤ length s
unfolding has_prefix
has_prefix-length s [] h = omega arith
has_prefix-length [] (d ∷ t) h = cc
has_prefix-length (c ∷ s) (d ∷ t) h = ground (arith, has_prefix-length s t)

pub left-advance : (n : ℕ) (p : Parser) → left (advance n p) ≤ left p
left-advance n p = omega (arith, length-drop n p.rest)

-- A token that was read is gone from the input.
pub consume-Post :
    (s : Bytes) (p : Parser)
    → Post (λ b q. left q + (if b then length s else 0) ≤ left p) (consume s p)
unfolding consume
consume-Post s p = elim (Bool-cases (has_prefix p.rest s)) [
  | inl e ↦ rw e (omega (arith, length-drop (length s) p.rest, has_prefix-length p.rest s e))
  | inr e ↦ rw e (omega arith)
]

pub expect-Post : (s : Bytes) (p : Parser) → Post (λ _ q. left q + length s ≤ left p) (expect s p)
unfolding expect pure errorf
expect-Post s p =
    Post-bind (λ b q. left q + (if b then length s else 0) ≤ left p)
      (λ _ q. left q + length s ≤ left p) (consume s) _ p (consume-Post s p) go
  where
    go :
        (b : Bool) (q : Parser)
        → left q + (if b then length s else 0) ≤ left p
        → Post
            (λ _ q'. left q' + length s ≤ left p)
            ((if b then pure tt else errorf (Message.token s)) q)
    go true q h = h
    go false q h = tt

pub scan-Post : (test : ℕ → Bool) (p : Parser) → Post (λ _ q. left q ≤ left p) (scan test p)
unfolding scan
scan-Post test p = left-advance (length (take_while test p.rest)) p

pub skip_spaces-Post : (p : Parser) → Post (λ _ q. left q ≤ left p) (skip_spaces p)
unfolding skip_spaces
skip_spaces-Post p = scan-Post _ p

pub until-Post : (stops : Bytes) (p : Parser) → Post (λ _ q. left q ≤ left p) (until stops p)
unfolding until
until-Post stops p = scan-Post _ p

module _ {A B : Type 0} (n : ℕ) (Q : B → Parser → Type 0) where
  -- The rule for `do` where only the length of the input that is left matters.
  pub Post-then :
      (m : Parse A) (f : A → Parse B) (p : Parser)
      → Post (λ _ q. left q ≤ n) (m p)
      → ((a : A) (q : Parser) → left q ≤ n → Post Q (f a q))
      → Post Q ((m >>= f) p)
  Post-then m f p h k = Post-bind (λ _ q. left q ≤ n) Q m f p h k

-- The parser stops with a result or with an error of the program, and gives no input back.
pub record Reads {A : Type 0} (m : Parse A) : Type 0 where
  pub at : (p : Parser) → Post (λ _ q. left q ≤ left p) (m p)

module _ {A B : Type 0} where
  pub Reads-bind :
      (m : Parse A) (f : A → Parse B) → Reads m → ((a : A) → Reads (f a)) → Reads (m >>= f)
  Reads-bind m f h k = record {
    at = λ p.
        Post-then (left p) (λ _ q. left q ≤ left p) m f p (h.at p)
          λ a q le.
            Post-mono (λ _ r. left r ≤ left q) (λ _ r. left r ≤ left p) (f a q) ((k a).at q)
              λ _ r le'. omega arith;
  }

module _ {A : Type 0} where
  pub Reads-pure : (a : A) → Reads (pure a)
  unfolding pure
  Reads-pure a = record { at = λ p. omega arith }

  pub Reads-errorf : (msg : Message) → Reads {A = A} (errorf msg)
  Reads-errorf msg = record { at = λ p. Post-errorf _ msg p }

  pub Reads-raise : (e : Error) → IsProper e → Reads {A = A} (raise e)
  unfolding raise
  Reads-raise e h = record { at = λ p. h }

  pub Reads-if : (b : Bool) (m n : Parse A) → Reads m → Reads n → Reads (if b then m else n)
  Reads-if true m n hm hn = hm
  Reads-if false m n hm hn = hn

pub Reads-consume : (s : Bytes) → Reads (consume s)
Reads-consume s = record {
  at = λ p.
      Post-mono _ (λ _ q. left q ≤ left p) (consume s p) (consume-Post s p) λ b q h. omega arith;
}

pub Reads-expect : (s : Bytes) → Reads (expect s)
Reads-expect s = record {
  at =
      λ p. Post-mono _ (λ _ q. left q ≤ left p) (expect s p) (expect-Post s p) λ b q h. omega arith;
}

pub Reads-scan : (test : ℕ → Bool) → Reads (scan test)
Reads-scan test = record { at = λ p. scan-Post test p }

pub ruleset reads_rules = (
  Reads-bind, Reads-pure, Reads-errorf, Reads-raise, Reads-if, Reads-consume, Reads-expect,
  Reads-scan,
)

-- A branch on whether a token is there: where it is, its bytes have been read.
pub Post-consume :
    {B : Type 0} (Q : B → Parser → Type 0) (s : Bytes) (m k : Parse B) (p : Parser)
    → ((q : Parser) → left q + length s ≤ left p → Post Q (m q))
    → ((q : Parser) → left q ≤ left p → Post Q (k q))
    → Post Q ((consume s >>= λ b. if b then m else k) p)
Post-consume Q s m k p hm hk =
    Post-bind (λ b q. left q + (if b then length s else 0) ≤ left p) Q (consume s) _ p
      (consume-Post s p) go
  where
    go :
        (b : Bool) (q : Parser)
        → left q + (if b then length s else 0) ≤ left p
        → Post Q ((if b then m else k) q)
    go true q h = hm q h
    go false q h = hk q (omega arith)
