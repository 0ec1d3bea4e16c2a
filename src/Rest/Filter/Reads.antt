-- ===== src/Rest/Filter/Reads.antt =====
-- pkg/rest/filter.go: how far the parsers of tokens, values and lists read.
use pigo.Base.{
  ℕ, zero, suc, ◌+◌, ◌≤◌, ◌<◌, ◌≡◌, Bool, true, false, Option, none, some, List, [], ◌∷◌, arith,
  eqb, length, is_empty, Bool-cases, Option-cases, inl, inr, if◌then◌else◌, ◌&&◌, ◌||◌,
}
use pigo.Base.Bytes.{Bytes, codes}
use pigo.Rest.Filter.Parser.{
  Parser, Parse, ◌>>=◌, pure, consume, skip_spaces, until, peek, operand, opened, quoted,
  quoted_element, element, elements, all_elements, list_operand, operand_in_tree, braced, bare_list,
}
use pigo.Rest.Filter.{Condition}
use pigo.Rest.Filter.Parse.{
  lang_modifier, quant_modifier, in_operation, valued_operation, any_or_all,
}
use pigo.Rest.Filter.Post.{
  Post, Post-mono, Post-then, left, left-advance, Reads, reads_rules, Post-consume, Post-errorf,
}

pub Reads-skip_spaces : Reads skip_spaces
unfolding skip_spaces
Reads-skip_spaces = search reads_rules

Reads-until : (stops : Bytes) → Reads (until stops)
unfolding until
Reads-until stops = search reads_rules

Reads-peek : Reads peek
unfolding peek
Reads-peek = record { at = λ p. omega arith }

-- A quoted text, where there is one, is read.
pub quoted-left : (p : Parser) {s : Bytes} {q : Parser} → quoted p ≡ some (s, q) → left q ≤ left p
unfolding quoted
quoted-left p {s} {q} h = elim (Option-cases (opened p.rest)) [
  | inl e ↦ ground arith
  | inr (x, e) ↦ ground (arith, left-advance (x.1 + 1) p)
]

quoted_element-left :
    (p : Parser) {s : Bytes} {q : Parser} → quoted_element p ≡ some (s, q) → left q ≤ left p
unfolding quoted_element
quoted_element-left p {s} {q} h = elim (Option-cases (quoted p)) [
  | inl e ↦ ground arith
  | inr (x, e) ↦ ground (arith, quoted-left p {s = x.0} {q = x.1} e)
]

pub Reads-lang_modifier : Reads lang_modifier
unfolding lang_modifier
Reads-lang_modifier = search reads_rules depth 9

Reads-any_or_all : Reads any_or_all
unfolding any_or_all
Reads-any_or_all = search reads_rules depth 9

pub Reads-quant_modifier : (op : Bytes) → Reads (quant_modifier op)
unfolding quant_modifier
Reads-quant_modifier op = search (reads_rules, Reads-any_or_all) depth 9

pub Reads-operand : (in_tree : Bool) → Reads (operand in_tree)
unfolding operand operand_in_tree
Reads-operand false = record { at = λ p. left-advance (length p.rest) p }
Reads-operand true = record { at = go }
  where
    go : (p : Parser) → Post (λ _ q. left q ≤ left p) (operand_in_tree p)
    go p = elim (Option-cases (quoted_element p)) [
      | inl e ↦
          rw (e, operand_in_tree)
            (elim (Option-cases (braced p.rest)) [
              | inl e' ↦ rw e' ((Reads-until (codes ",)")).at p)
              | inr (n, e') ↦ rw e' (left-advance n p)
            ])
      | inr (x, e) ↦ rw (e, operand_in_tree) (quoted_element-left p {s = x.0} {q = x.1} e)
    ]

pub Reads-valued_operation : (in_tree : Bool) (c : Condition) → Reads (valued_operation in_tree c)
unfolding valued_operation
Reads-valued_operation in_tree c = search (reads_rules, Reads-operand) depth 9

Reads-element : (first : Bool) → Reads (element first)
unfolding element
Reads-element first = record { at = go }
  where
    item : Reads (
        until (codes ",)") >>= λ item.
        peek >>= λ next. pure (if is_empty item && first && eqb next b')' then none else some item))
    item = search (reads_rules, Reads-until, Reads-peek) depth 9

    go : (p : Parser) → Post (λ _ q. left q ≤ left p) (element first p)
    go p = elim (Option-cases (quoted_element p)) [
      | inl e ↦ rw (e, element) (item.at p)
      | inr (x, e) ↦ rw (e, element) (quoted_element-left p {s = x.0} {q = x.1} e)
    ]

-- The loop of `list` has more fuel than the input has bytes: each round but the last reads a comma.
elements-Post :
    (f : ℕ) (first : Bool) (p : Parser)
    → left p < f
    → Post (λ _ q. left q ≤ left p) (elements f first p)
unfolding elements pure
elements-Post zero first p h = elim h [ ]
elements-Post (suc f) first p h =
    Post-then (left p) (λ _ q. left q ≤ left p) (element first) _ p ((Reads-element first).at p)
      (go (elements-Post f false))
  where
    again :
        ((q : Parser) → left q < f → Post (λ _ r. left r ≤ left q) (elements f false q))
        → (v : Bytes) (q : Parser) → left q + 1 ≤ left p
        → Post (λ _ r. left r ≤ left p) ((elements f false >>= λ vs. pure (v ∷ vs)) q)
    again ih v q le =
        Post-then (left p) (λ _ r. left r ≤ left p) (elements f false) _ q
          (Post-mono _ _ (elements f false q) (ih q (omega arith)) (λ _ r le'. omega arith))
          (λ vs r le'. le')

    go :
        ((q : Parser) → left q < f → Post (λ _ r. left r ≤ left q) (elements f false q))
        → (item : Option Bytes) (q : Parser) → left q ≤ left p
        → Post
            (λ _ r. left r ≤ left p)
            ((elim item as (λ _. Parse (List Bytes)) [
              | none ↦ pure []
              | some v ↦ do
                more ← consume (codes ",")
                if more then (do vs ← elements f false; pure (v ∷ vs)) else pure (v ∷ [])
            ])
              q)
    go ih none q le = le
    go ih (some v) q le =
        Post-consume (λ _ r. left r ≤ left p) (codes ",") _ _ q
          (λ r le'. again ih v r (omega arith)) (λ r le'. omega arith)

Reads-all_elements : Reads all_elements
unfolding all_elements
Reads-all_elements = record { at = λ p. elements-Post (suc (length p.rest)) true p (omega arith) }

Reads-bare_list : (in_tree : Bool) → Reads (bare_list in_tree)
unfolding bare_list
Reads-bare_list in_tree = record {
  at = λ p. elim (Bool-cases (in_tree || is_empty p.rest)) [
    | inl e ↦ rw (e, bare_list) (Post-errorf _ _ p)
    | inr e ↦ rw (e, bare_list) (left-advance (length p.rest) p)
  ];
}

pub Reads-list_operand : (in_tree : Bool) → Reads (list_operand in_tree)
unfolding list_operand
Reads-list_operand in_tree =
    search (reads_rules, Reads-skip_spaces, Reads-all_elements, Reads-bare_list) depth 12

pub Reads-in_operation : (in_tree : Bool) (c : Condition) → Reads (in_operation in_tree c)
unfolding in_operation
Reads-in_operation in_tree c = search (reads_rules, Reads-list_operand) depth 9
