-- ===== src/Rest/Filter/ReadsField.antt =====
-- pkg/rest/filter.go: how far the parsers of names and paths read.
use pigo.Base.{
  ℕ, zero, suc, ◌+◌, ◌≤◌, ◌<◌, Bool, Option, none, some, List, arith, eqb, Bool-cases, length,
  false, [], inl, Option-cases, ◌≡◌, inr, true,
}
use pigo.Base.Bytes.{Bytes, codes}
use pigo.Base.{◌∷◌, [], false}
use pigo.Base.Int.{pos}
use pigo.Base.Utf8.{Unicode}
use pigo.Rest.Filter.{Condition, JsonPathStep}
use pigo.Rest.Filter.Parser.{Parser, Parse, ◌>>=◌, pure, quoted, head_byte}
use pigo.Rest.Filter.Post.{
  Post, Post-then, Post-mono, left, Reads, reads_rules, Post-consume, Post-errorf, left-advance,
  Post-bind,
}
use pigo.Rest.Filter.Reads.{
  Reads-lang_modifier, Reads-in_operation, Reads-valued_operation, Reads-quant_modifier,
  quoted-left,
}
use pigo.Rest.Filter.Names.{
  json_path, path_steps, path_step, bare_name, arrow_at, name, name_length, array_index,
}
use pigo.Rest.Filter.Parse.{is_operation, operation, operation_of, leaf}

abbrev arrow_length : Option Bytes → ℕ
arrow_length none = 0
arrow_length (some a) = 1

-- An arrow that was read is gone from the input.
arrow_at-Post : (p : Parser) → Post (λ a q. left q + arrow_length a ≤ left p) (arrow_at p)
unfolding arrow_at pure
arrow_at-Post p =
    Post-consume (λ a q. left q + arrow_length a ≤ left p) (codes "->>") _ _ p (λ q h. omega arith)
      λ q h.
        Post-consume (λ a r. left r + arrow_length a ≤ left p) (codes "->") _ _ q
          (λ r h'. omega arith) (λ r h'. omega arith)

module _ (u : Unicode) where
  Reads-bare_name : Reads (bare_name u)
  unfolding bare_name
  Reads-bare_name = record {
    at = λ p. elim (Bool-cases (eqb (name_length u 0 false p.rest) 0)) [
      | inl e ↦ rw (e, bare_name) (Post-errorf _ _ p)
      | inr e ↦ rw (e, bare_name) (left-advance (name_length u 0 false p.rest) p)
    ];
  }

  quoted_name :
      (p : Parser) → eqb (head_byte p.rest) b'"' ≡ true → Post (λ _ q. left q ≤ left p) (name u p)
  unfolding name
  quoted_name p e = elim (Option-cases (quoted p)) [
    | inl e' ↦ rw (e, e', name) (Post-errorf _ _ p)
    | inr (x, e') ↦ rw (e, e', name) (quoted-left p {s = x.0} {q = x.1} e')
  ]

  pub Reads-name : Reads (name u)
  unfolding name
  Reads-name = record {
    at = λ p. elim (Bool-cases (eqb (head_byte p.rest) b'"')) [
      | inl e ↦ quoted_name p e
      | inr e ↦ rw (e, name) (Reads-bare_name.at p)
    ];
  }

  Reads-path_step : (arrow : Bytes) → Reads (path_step u arrow)
  unfolding path_step
  Reads-path_step arrow = record { at = go }
    where
      key : Reads {A = JsonPathStep} (
          name u >>= λ key.
          pure (record { arrow = arrow; key = key; index = pos 0; is_index = false }))
      key = search (reads_rules, Reads-name) depth 9

      go : (p : Parser) → Post (λ _ q. left q ≤ left p) (path_step u arrow p)
      go p = elim (Option-cases (array_index u p.rest)) [
        | inl e ↦ rw (e, path_step) (key.at p)
        | inr (x, e) ↦ rw (e, path_step) (left-advance x.1 p)
      ]

  -- The loop of `jsonPath` has more fuel than the input has bytes.
  path_steps-Post :
      (f : ℕ) (p : Parser) → left p < f → Post (λ _ q. left q ≤ left p) (path_steps u f p)
  unfolding path_steps pure
  path_steps-Post zero p h = elim h [ ]
  path_steps-Post (suc f) p h =
      Post-bind (λ a q. left q + arrow_length a ≤ left p) (λ _ q. left q ≤ left p) arrow_at _ p
        (arrow_at-Post p) (go (path_steps-Post f))
    where
      go :
          ((q : Parser) → left q < f → Post (λ _ r. left r ≤ left q) (path_steps u f q))
          → (arrow : Option Bytes) (q : Parser) → left q + arrow_length arrow ≤ left p
          → Post
              (λ _ r. left r ≤ left p)
              ((elim arrow as (λ _. Parse (List JsonPathStep)) [
                | none ↦ pure []
                | some a ↦ do step ← path_step u a; steps ← path_steps u f; pure (step ∷ steps)
              ])
                q)
      go ih none q le = omega arith
      go ih (some a) q le =
          Post-then (left q) (λ _ r. left r ≤ left p) (path_step u a) _ q ((Reads-path_step a).at q)
            λ step r le'.
              Post-then (left q) (λ _ r'. left r' ≤ left p) (path_steps u f) _ r
                (Post-mono _ _ (path_steps u f r) (ih r (omega arith)) (λ _ r' le''. omega arith))
                λ steps r' le''. omega arith

  pub Reads-json_path : Reads (json_path u)
  unfolding json_path
  Reads-json_path = record { at = λ p. path_steps-Post (suc (length p.rest)) p (omega arith) }

  Reads-is_operation : (c : Condition) → Reads (is_operation u c)
  unfolding is_operation
  Reads-is_operation c = search reads_rules depth 9

  Reads-operation_of : (in_tree : Bool) (c : Condition) → Reads (operation_of u in_tree c)
  unfolding operation_of
  Reads-operation_of in_tree c =
      search
        (
          reads_rules, Reads-in_operation, Reads-is_operation, Reads-valued_operation,
          Reads-lang_modifier, Reads-quant_modifier,
        )
        depth 16

  pub Reads-operation : (in_tree : Bool) → Reads (operation u in_tree)
  unfolding operation
  Reads-operation in_tree = search (reads_rules, Reads-operation_of) depth 9

  pub Reads-leaf : Reads (leaf u)
  unfolding leaf
  Reads-leaf = search (reads_rules, Reads-name, Reads-json_path, Reads-operation) depth 12
