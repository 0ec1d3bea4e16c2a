-- ===== src/Rest/Filter/Tree.antt =====
-- pkg/rest/filter.go: logic trees, their fuel and their nesting.
use pigo.Base.{
  ℕ, zero, suc, ◌+◌, ◌*◌, ◌≤◌, ◌≡◌, refl, inl, inr, Bool, true, some, arith, length, Bool-cases,
  ltb, ◌-◌, find_sound, if◌then◌else◌, Option-cases, length-drop,
}
use pigo.Base.Bytes.{Bytes, codes, has_prefix}
use pigo.Base.Utf8.{Unicode}
use pigo.Rest.Error.{said}
use pigo.Rest.Filter.{Condition, FilterNode, group, FilterNodes, max_filter_depth}
use pigo.Rest.Filter.Parser.{
  Parser, advance, pure, consume, expect, skip_spaces, raise, ◌>>=◌, ◌>>◌, errorf,
}
use pigo.Rest.Filter.Parse.{
  GroupPrefix, group_prefix_at, parse_group, parse_members, parse_condition, leaf, group_prefixes,
  operation,
}
use pigo.Rest.Filter.Post.{
  Post, Post-bind, Post-mono, Post-then, Post-consume, left, expect-Post, has_prefix-length,
  Post-errorf, Reads-expect,
}
use pigo.Rest.Filter.Reads.{Reads-skip_spaces}
use pigo.Rest.Filter.ReadsField.{Reads-leaf, Reads-name, Reads-json_path}
use pigo.Rest.Error.{Result, ok, err}
use pigo.Rest.Filter.{FilterField}
use pigo.Rest.Filter.Valid.{
  IsOperation, in_list, is_value, distinct, text_search, comparison, IsLogic, IsCons, IsWellFormed,
  AreWellFormed, height, heights, Yields, Yields-after, Yields-bind, Yields-pure,
}
use pigo.Rest.Filter.Names.{name, json_path}
use pigo.Rest.Filter.Operations.{operation-IsOperation}

-- A node that was read from `p`, with `q` left over.
abbrev pub NodeWithin : ℕ → Parser → FilterNode → Parser → Type 0
NodeWithin k p n q = (left q ≤ left p) × IsWellFormed n × (height n ≤ k)

abbrev pub NodesWithin : ℕ → Parser → FilterNodes → Parser → Type 0
NodesWithin k p ns q = (left q ≤ left p) × IsCons ns × AreWellFormed ns × (heights ns ≤ k)

-- The parenthesis of a nested group is left to it, and the word in front of it is read.
group_prefix_at_lem :
    (s : Bytes) {g : GroupPrefix}
    → group_prefix_at s ≡ some g
    → IsLogic g.logic × (2 ≤ length g.prefix - 1) × (length g.prefix ≤ length s)
unfolding group_prefix_at
group_prefix_at_lem s {g} h =
    let ((logic, long), there) =
      find_sound (λ x. IsLogic x.logic × (2 ≤ length x.prefix - 1)) (λ x. has_prefix s x.prefix)
        group_prefixes g
        (
          (inl refl, omega arith),
          ((inr refl, omega arith), ((inl refl, omega arith), ((inr refl, omega arith), tt))),
        )
        h in
    (logic, long, has_prefix-length s g.prefix there)

pub IsOperation-field :
    (c : Condition) (field : FilterField) → IsOperation c → IsOperation (record c { field = field })
IsOperation-field c field (in_list h) = in_list h
IsOperation-field c field (is_value h k) = is_value h k
IsOperation-field c field (distinct h) = distinct h
IsOperation-field c field (text_search h) = text_search h
IsOperation-field c field (comparison h k) = comparison h k

abbrev IsLeaf : FilterNode → Type 0
IsLeaf n = IsWellFormed n × (height n ≡ 0)

leaf-IsLeaf : (u : Unicode) → Yields IsLeaf (leaf u)
unfolding leaf IsWellFormed height
leaf-IsLeaf u = Yields-after (name u) _ (Reads-name u) λ column.
    Yields-after (json_path u) _ (Reads-json_path u) λ path.
      Yields-after (expect (codes ".")) _ (Reads-expect (codes ".")) λ _.
        Yields-bind (operation u true) _ (operation-IsOperation u true)
          λ c op. Yields-pure _ (IsOperation-field c _ op, refl)

module _ {A : Type 0} (P Q : A → Parser → Type 0) where
  Post-and : (r : Result (A × Parser)) → Post P r → Post Q r → Post (λ a q. P a q × Q a q) r
  Post-and (ok (a, p)) h k = (h, k)
  Post-and (err e) h k = h

leaf-within : (u : Unicode) (k : ℕ) (p : Parser) → Post (NodeWithin k p) (leaf u p)
leaf-within u k p =
    Post-mono _ (NodeWithin k p) (leaf u p)
      (Post-and _ (λ n _. IsLeaf n) (leaf u p) ((Reads-leaf u).at p) ((leaf-IsLeaf u).at p))
      λ n q good. (good.0, good.1.0, omega arith)

module _ (u : Unicode) (f depth : ℕ) where
  group_step :
      (logic : Bytes) (negate : Bool) (p : Parser)
      → IsLogic logic
      → (depth ≤ 32
          → (q : Parser) → left q + 1 ≤ left p
          → Post (NodesWithin (32 - depth) q) (parse_members u f depth q))
      → Post (NodeWithin (33 - depth) p) (parse_group u (suc f) logic negate depth p)
  unfolding parse_group raise pure IsWellFormed height
  group_step logic negate p h ih = elim (Bool-cases (ltb max_filter_depth depth)) [
    | inl e ↦ rw (e, parse_group) tt
    | inr e ↦ rw (e, parse_group) (body (ground arith))
  ]
    where
      close :
          (ns : FilterNodes) (q : Parser)
          → left q ≤ left p
          → IsCons ns × AreWellFormed ns × (heights ns ≤ 32 - depth)
          → depth ≤ 32
          → Post (NodeWithin (33 - depth) p) (
              (consume (codes ")") >>= λ closed.
              if closed
              then skip_spaces >> pure (group negate logic ns)
              else errorf (said (codes "expected , or )")))
                q)
      close ns q le v d =
          Post-consume (NodeWithin (33 - depth) p) (codes ")") _ _ q
            (λ r le'.
              Post-then (left r) (NodeWithin (33 - depth) p) skip_spaces _ r
                (Reads-skip_spaces.at r)
                λ _ t le''. (omega arith, (h, v.0, v.1), omega (arith, v.2)))
            λ r le'. Post-errorf (NodeWithin (33 - depth) p) _ r

      body :
          depth ≤ 32
          → Post (NodeWithin (33 - depth) p) (
              (expect (codes "(")
                  >> (skip_spaces
                      >> (parse_members u f depth >>= λ ns. consume (codes ")") >>= λ closed.
                          if closed
                          then skip_spaces >> pure (group negate logic ns)
                          else errorf (said (codes "expected , or )")))))
                p)
      body d =
          Post-bind (λ _ q. left q + 1 ≤ left p) (NodeWithin (33 - depth) p) (expect (codes "(")) _
            p (expect-Post (codes "(") p)
            λ _ q le.
              Post-then (left q) (NodeWithin (33 - depth) p) skip_spaces _ q
                (Reads-skip_spaces.at q)
                λ _ r le'.
                  Post-bind (NodesWithin (32 - depth) r) (NodeWithin (33 - depth) p)
                    (parse_members u f depth) _ r (ih d r (omega arith))
                    λ ns t good. close ns t (omega arith) (good.1, good.2, good.3) d

  members_step :
      (p : Parser)
      → Post (NodeWithin (32 - depth) p) (parse_condition u f depth p)
      → ((q : Parser)
          → left q + 1 ≤ left p
          → Post (NodesWithin (32 - depth) q) (parse_members u f depth q))
      → Post (NodesWithin (32 - depth) p) (parse_members u (suc f) depth p)
  unfolding parse_group AreWellFormed heights pure
  members_step p hc ih =
      Post-bind (NodeWithin (32 - depth) p) (NodesWithin (32 - depth) p) (parse_condition u f depth)
        _ p hc
        λ n q good.
          Post-consume (NodesWithin (32 - depth) p) (codes ",") _ _ q
            (λ r le.
              Post-then (left r) (NodesWithin (32 - depth) p) skip_spaces _ r
                (Reads-skip_spaces.at r)
                λ _ t le'.
                  Post-bind (NodesWithin (32 - depth) t) (NodesWithin (32 - depth) p)
                    (parse_members u f depth) _ t (ih t (omega arith))
                    λ ns w goods. (omega arith, tt, (good.1, goods.2), omega arith))
            λ r le. (omega arith, tt, (good.1, tt), omega arith)

  condition_step :
      (p : Parser)
      → ((logic : Bytes) (negate : Bool) (q : Parser)
          → IsLogic logic
          → left q + 2 ≤ left p
          → Post (NodeWithin (33 - suc depth) q) (parse_group u f logic negate (suc depth) q))
      → Post (NodeWithin (32 - depth) p) (parse_condition u (suc f) depth p)
  unfolding parse_group
  condition_step p ih = elim (Option-cases (group_prefix_at p.rest)) [
    | inl e ↦ rw (e, parse_condition) (leaf-within u (32 - depth) p)
    | inr (g, e) ↦
        let (logic, long, short) = group_prefix_at_lem p.rest e in
        let q = advance (length g.prefix - 1) p in
        let shorter : left q + 2 ≤ left p =
          omega (arith, length-drop (length g.prefix - 1) p.rest) in
        rw (e, parse_condition)
          (Post-mono _ (NodeWithin (32 - depth) p) (parse_group u f g.logic g.negate (suc depth) q)
            (ih g.logic g.negate q logic shorter) λ n r good. (omega arith, good.1, omega arith))
  ]

mutual
  pub group-Post :
      (u : Unicode) (f : ℕ) (logic : Bytes) (negate : Bool) (depth : ℕ) (p : Parser)
      → IsLogic logic
      → 2 * left p + 1 ≤ f
      → Post (NodeWithin (33 - depth) p) (parse_group u f logic negate depth p)
  group-Post u zero logic negate depth p h enough = absurd (omega arith)
  group-Post u (suc f) logic negate depth p h enough =
      group_step u f depth logic negate p h λ d q le. members-Post u f depth q d (omega arith)

  members-Post :
      (u : Unicode) (f depth : ℕ) (p : Parser)
      → depth ≤ 32
      → 2 * left p + 2 ≤ f
      → Post (NodesWithin (32 - depth) p) (parse_members u f depth p)
  members-Post u zero depth p d enough = absurd (omega arith)
  members-Post u (suc f) depth p d enough =
      members_step u f depth p (condition-Post u f depth p d (omega arith))
        λ q le. members-Post u f depth q d (omega arith)

  condition-Post :
      (u : Unicode) (f depth : ℕ) (p : Parser)
      → depth ≤ 32
      → 2 * left p + 1 ≤ f
      → Post (NodeWithin (32 - depth) p) (parse_condition u f depth p)
  condition-Post u zero depth p d enough = absurd (omega arith)
  condition-Post u (suc f) depth p d enough =
      condition_step u f depth p
        λ logic negate q h le. group-Post u f logic negate (suc depth) q h (omega arith)
