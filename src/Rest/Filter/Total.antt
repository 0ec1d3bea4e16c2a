-- ===== src/Rest/Filter/Total.antt =====
-- pkg/rest/filter.go: parseFilter on every input.
use pigo.Base.{
  refl, [], ◌∷◌, Bool-cases, inl, inr, ◌⊎◌, ◌≤◌, ◌≡◌, Bool, true, false, arith, if◌then◌else◌, List,
  ◌∷◌, inl, ◌⊎◌, inr, eqb, Bool-cases,
}
use pigo.Base.Bytes.{Bytes, codes, ==_iff}
use pigo.Base.Utf8.{Unicode}
use pigo.Rest.Error.{
  Error, Result, ok, err, wrap, in_logic_tree, said, in_filter_key, embedded_filter, in_filter,
}
use pigo.Rest.Filter.{RawFilter, FilterNode, FilterField, Condition, condition}
use pigo.Rest.Filter.Parser.{
  Parser, parser, Parse, expect_eof, pure, errorf, eof, head_byte, ◌>>=◌, ◌>>◌,
}
use pigo.Rest.Filter.Parse.{
  run, key_kind, KeyKind, column_key, embedded_key, tree_key, parse_logic_tree, parse_filter_key,
  parse_column_filter, parse_filter, to_upper, parse_group, group_fuel, result_of, kind_of_segments,
  key_path, operation,
}
use pigo.Rest.Filter.Post.{Post, IsProper, Post-bind, Post-mono, Post-errorf, Post-then, left}
use pigo.Rest.Filter.Valid.{IsLogic, IsWellFormed, height, IsOperation}
use pigo.Rest.Filter.Tree.{IsOperation-field, NodeWithin, group-Post}
use pigo.Rest.Filter.Names.{name, json_path}
use pigo.Rest.Filter.ReadsField.{Reads-name, Reads-json_path}
use pigo.Rest.Filter.Operations.{operation-IsOperation}

eof-Post : (p : Parser) → Post (λ _ q. Unit {0}) (eof p)
unfolding eof
eof-Post p = tt

expect_eof-Post : (p : Parser) → Post (λ _ q. Unit {0}) (expect_eof p)
unfolding expect_eof pure
expect_eof-Post p = Post-bind (λ _ _. Unit) (λ _ _. Unit) eof _ p (eof-Post p) λ done q _. go done q
  where
    go :
        (done : Bool) (q : Parser)
        → Post
            (λ _ _. Unit)
            ((if done then pure tt else errorf (said (codes "unexpected input"))) q)
    go true q = tt
    go false q = Post-errorf _ _ q

module _ {A : Type 0} (Q : A → Type 0) where
  -- a result with the property, or an error that is the program's
  abbrev pub Ends : Result A → Type 0
  Ends (ok a) = Q a
  Ends (err e) = IsProper e

  result_of-Ends : (r : Result (A × Parser)) → Post (λ a _. Q a) r → Ends (result_of r)
  result_of-Ends (ok (a, p)) h = h
  result_of-Ends (err e) h = h

  pub run-Ends : (m : Parse A) (src : Bytes) → Post (λ a _. Q a) (m (parser src)) → Ends (run m src)
  unfolding run pure
  run-Ends m src h = result_of-Ends ((m >>= λ a. expect_eof >> pure a) (parser src)) (
      Post-bind (λ a _. Q a) (λ a _. Q a) m (λ a. expect_eof >> pure a) (parser src) h
        λ a p good.
          Post-bind (λ _ q. Unit) (λ a _. Q a) expect_eof (λ _. pure a) p (expect_eof-Post p)
            λ _ q _. good)

  wrap-Ends :
      (f : Error → Error) (r : Result A)
      → ((e : Error) → IsProper e → IsProper (f e))
      → Ends r
      → Ends (wrap f r)
  wrap-Ends f (ok a) k h = h
  wrap-Ends f (err e) k h = k e h

-- What parseFilter returns: a tree of bounded nesting that the renderer has a form for.
abbrev pub IsFilter : FilterNode → Type 0
IsFilter n = IsWellFormed n × (height n ≤ 32)

kind_of_segments-last :
    (segments : List Bytes) {last : Bytes} {negate : Bool}
    → kind_of_segments segments ≡ tree_key last negate
    → (last ≡ codes "and") ⊎ (last ≡ codes "or")
kind_of_segments-last [] h = cc
kind_of_segments-last (s ∷ []) h = ground (arith, ==_iff s (codes "and"), ==_iff s (codes "or"))
kind_of_segments-last (s ∷ q ∷ []) h = ground (arith, ==_iff s (codes "and"), ==_iff s (codes "or"))
kind_of_segments-last (s ∷ q ∷ r ∷ more) h =
    ground (arith, ==_iff s (codes "and"), ==_iff s (codes "or"))

-- "AND" or "OR" is passed to the parser of groups.
tree_key-IsLogic :
    (key : Bytes) {last : Bytes} {negate : Bool}
    → key_kind key ≡ tree_key last negate
    → IsLogic (to_upper last)
unfolding key_kind to_upper
tree_key-IsLogic key h = elim (kind_of_segments-last _ h) [
  | inl e ↦ inl (rw e)
  | inr e ↦ inr (rw e)
]

parse_logic_tree-IsFilter :
    (u : Unicode) (logic : Bytes) (negate : Bool) (value : Bytes)
    → IsLogic logic
    → Ends IsFilter (parse_logic_tree u logic negate value)
unfolding parse_logic_tree
parse_logic_tree-IsFilter u logic negate value h =
    let m = parse_group u (group_fuel (parser value)) logic negate 1 in
    wrap-Ends IsFilter (in_logic_tree value) (run m value) (λ e k. k)
      (run-Ends IsFilter m value (
        Post-mono (NodeWithin 32 (parser value)) (λ n _. IsFilter n) (m (parser value))
          (group-Post u (group_fuel (parser value)) logic negate 1 (parser value) h (omega arith))
          λ n q good. (good.1, good.2)))

key_path-Post :
    (u : Unicode) (column : Bytes) (p : Parser) → Post (λ _ _. Unit {0}) (key_path u column p)
unfolding key_path pure
key_path-Post u column p =
    Post-then (left p) (λ _ _. Unit) (json_path u) _ p ((Reads-json_path u).at p)
      λ path q le.
        Post-bind (λ _ _. Unit) (λ _ _. Unit) expect_eof _ q (expect_eof-Post q) λ _ r _. tt

-- The rest of parseFilterKey, behind the column.
key_rest-Ends :
    (u : Unicode) (key : Bytes) (r : Result (Bytes × Parser))
    → Post (λ _ _. Unit {0}) r
    → Ends {A = FilterField}
        (λ _. Unit {0})
        (elim r as (λ _. Result FilterField) [
          | err e ↦ err (in_filter_key key e)
          | ok (column, p) ↦
              if eqb (head_byte p.rest) b'.'
              then err (embedded_filter key)
              else wrap (in_filter_key key) (result_of (key_path u column p))
        ])
key_rest-Ends u key (err e) h = h
key_rest-Ends u key (ok (column, p)) h = elim (Bool-cases (eqb (head_byte p.rest) b'.')) [
  | inl e ↦ rw e tt
  | inr e ↦ rw e (
      wrap-Ends (λ _. Unit) (in_filter_key key) (result_of (key_path u column p)) (λ _ k. k)
        (result_of-Ends (λ _. Unit) (key_path u column p) (key_path-Post u column p)))
]

parse_filter_key-Ends :
    (u : Unicode) (key : Bytes) → Ends {A = FilterField} (λ _. Unit {0}) (parse_filter_key u key)
unfolding parse_filter_key
parse_filter_key-Ends u key =
    key_rest-Ends u key (name u (parser key)) (
      Post-mono _ (λ _ _. Unit) (name u (parser key)) ((Reads-name u).at (parser key))
        (λ _ _ _. tt))

parse_column_filter-IsFilter :
    (u : Unicode) (key value : Bytes) → Ends IsFilter (parse_column_filter u key value)
unfolding parse_column_filter IsWellFormed height
parse_column_filter-IsFilter u key value =
    go (parse_filter_key u key) (wrap (in_filter value) (run (operation u false) value))
      (parse_filter_key-Ends u key)
      (wrap-Ends IsOperation (in_filter value) (run (operation u false) value) (λ _ k. k)
        (run-Ends IsOperation (operation u false) value
          ((operation-IsOperation u false).at (parser value))))
  where
    go :
        (f : Result FilterField) (o : Result Condition)
        → Ends (λ _. Unit {0}) f
        → Ends IsOperation o
        → Ends IsFilter (elim f as (λ _. Result FilterNode) [
          | err e ↦ err e
          | ok field ↦ elim o as (λ _. Result FilterNode) [
            | err e ↦ err e
            | ok c ↦ ok (condition (record c { field = field }))
          ]
        ])
    go (err e) o h k = h
    go (ok field) (err e) h k = k
    go (ok field) (ok c) h k = (IsOperation-field c field k, omega arith)

-- For every key and value, parseFilter returns a well-formed tree, with groups nested at most 32
-- deep, or one of the program's errors: none of its loops runs out of the fuel it is given.
pub parse_filter_total : (u : Unicode) (f : RawFilter) → Ends IsFilter (parse_filter u f)
unfolding parse_filter
parse_filter_total u f = go (key_kind f.key) refl
  where
    go :
        (k : KeyKind)
        → key_kind f.key ≡ k
        → Ends IsFilter (elim k as (λ _. Result FilterNode) [
          | column_key ↦ parse_column_filter u f.key f.value
          | embedded_key ↦ err (embedded_filter f.key)
          | tree_key last negate ↦ parse_logic_tree u (to_upper last) negate f.value
        ])
    go column_key e = parse_column_filter-IsFilter u f.key f.value
    go embedded_key e = tt
    go (tree_key last negate) e =
        parse_logic_tree-IsFilter u (to_upper last) negate f.value (tree_key-IsLogic f.key e)
