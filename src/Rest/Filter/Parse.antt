-- ===== src/Rest/Filter/Parse.antt =====
-- pkg/rest/filter.go: operations, logic trees, and the entry points parseFilter and parseFilterKey.
use mathlib.Core.List.{reverse}
use pigo.Base.{
  ℕ, zero, suc, ◌+◌, ◌-◌, ◌*◌, Bool, true, false, ◌&&◌, ◌||◌, Option, none, some, List, [], ◌∷◌,
  map, ltb, leb, eqb, length, is_empty, find, if◌then◌else◌, is_some,
}
use pigo.Base.Bytes.{Bytes, codes, ◌==◌, has_prefix, split, lookup, index_map}
use pigo.Base.Utf8.{Unicode, is_ascii_letter, is_ascii_digit, to_lower}
use pigo.Rest.Error.{said, Result, ok, err, wrap, out_of_fuel}
use pigo.Rest.Error.{too_deep, invalid_is, not_quantifiable, unknown_operator}
use pigo.Rest.Error.{embedded_filter, in_logic_tree, in_filter, in_filter_key}
use pigo.Rest.Filter.{
  RawFilter, FilterField, Condition, FilterNode, group, condition, FilterNodes, nil, cons,
  sql_operators, quantifiable, fts_functions, is_values, max_filter_depth,
}
use pigo.Rest.Filter.Parser.{
  Parser, parser, advance, Parse, ◌>>=◌, ◌>>◌, pure, raise, errorf, consume, expect, expect_eof,
  head_byte, scan, skip_spaces, operand, list_operand,
}
use pigo.Rest.Filter.Names.{name, json_path}

abbrev empty_field : FilterField
empty_field = record { column = []; path = [] }

-- filterNode{negate: ..., operator: op}, its other fields at their zero values
unfoldable pub bare_condition : Bool → Bytes → Condition
bare_condition negate op = record {
  negate = negate;
  field = empty_field;
  operator = op;
  quant = [];
  lang = [];
  value = [];
  list = [];
}

-- The text search configuration of fts(english), "" without parentheses.
unfoldable pub lang_modifier : Parse Bytes
lang_modifier = do
  parens ← consume (codes "(")
  if parens
      then (do
        lang ← scan (λ c. is_ascii_letter c || is_ascii_digit c || eqb c b'_')
        if is_empty lang
            then errorf (said (codes "expected a text search configuration, e.g. fts(english)"))
            else (do expect (codes ")"); pure lang))
      else pure []

unfoldable pub any_or_all : Parse Bytes
any_or_all = do
  is_any ← consume (codes "any)")
  if is_any then pure (codes "ANY") else do
    is_all ← consume (codes "all)")
    if is_all then pure (codes "ALL") else errorf (said (codes "expected any) or all)"))

-- The modifier of eq(any), "" without parentheses.
unfoldable pub quant_modifier : Bytes → Parse Bytes
quant_modifier op = do
  parens ← consume (codes "(")
  if parens then (if quantifiable op then any_or_all else raise (not_quantifiable op)) else pure []

unfoldable pub in_operation : Bool → Condition → Parse Condition
in_operation in_tree c = do
  expect (codes ".")
  list ← list_operand in_tree
  pure (record c { list = list })

module _ (u : Unicode) where
  unfoldable pub is_operation : Condition → Parse Condition
  is_operation c = do
    expect (codes ".")
    word ← scan (λ b. is_ascii_letter b || eqb b b'_')
    if is_some (lookup (to_lower u word) is_values)
        then pure (record c { value = to_lower u word })
        else raise (invalid_is word)

-- The end of `operation`: "." and the operand.
unfoldable pub valued_operation : Bool → Condition → Parse Condition
valued_operation in_tree c = do
  expect (codes ".")
  value ← operand in_tree
  pure (record c { value = value })

module _ (u : Unicode) where
  -- the switch of `operation` on the operator
  unfoldable pub operation_of : Bool → Condition → Parse Condition
  operation_of in_tree c =
      if c.operator == []
      then errorf (said (codes "expected an operator (eq, gt, in, is, ...)"))
      else if c.operator == codes "in"
      then in_operation in_tree c
      else if c.operator == codes "is"
      then is_operation u c
      else if c.operator == codes "isdistinct"
      then valued_operation in_tree c
      else if is_empty (index_map c.operator fts_functions)
      then (if is_empty (index_map c.operator sql_operators)
          then raise (unknown_operator c.operator)
          else (do
            quant ← quant_modifier c.operator
            valued_operation in_tree (record c { quant = quant })))
      else (do lang ← lang_modifier; valued_operation in_tree (record c { lang = lang }))

  -- [not.]<op>[(modifier)].<operand>
  unfoldable pub operation : Bool → Parse Condition
  operation in_tree = do
    negate ← consume (codes "not.")
    op ← scan is_ascii_letter
    operation_of in_tree (bare_condition negate op)

  -- <field>.[not.]<op>.<value> in a logic tree
  unfoldable pub leaf : Parse FilterNode
  leaf = do
    column ← name u
    path ← json_path u
    expect (codes ".")
    c ← operation true
    pure (condition (record c { field = record { column = column; path = path } }))

pub record GroupPrefix : Type 0 where
  pub prefix : Bytes
  pub logic : Bytes
  pub negate : Bool

abbrev pub group_prefixes : List GroupPrefix
group_prefixes =
    record { prefix = codes "and("; logic = codes "AND"; negate = false }
    ∷ record { prefix = codes "or("; logic = codes "OR"; negate = false }
    ∷ record { prefix = codes "not.and("; logic = codes "AND"; negate = true }
    ∷ record { prefix = codes "not.or("; logic = codes "OR"; negate = true }
    ∷ []

unfoldable pub group_prefix_at : Bytes → Option GroupPrefix
group_prefix_at s = find (λ g. has_prefix s g.prefix) group_prefixes

-- "(cond,cond,...)" and its members, on fuel; group_fuel is enough.
unfoldable mutual
  pub parse_group : Unicode → ℕ → Bytes → Bool → ℕ → Parse FilterNode
  parse_group u zero logic negate depth = raise out_of_fuel
  parse_group u (suc f) logic negate depth =
      if ltb max_filter_depth depth then raise too_deep else do
        expect (codes "(")
        skip_spaces
        children ← parse_members u f depth
        closed ← consume (codes ")")
        if closed
            then (do skip_spaces; pure (group negate logic children))
            else errorf (said (codes "expected , or )"))

  pub parse_members : Unicode → ℕ → ℕ → Parse FilterNodes
  parse_members u zero depth = raise out_of_fuel
  parse_members u (suc f) depth = do
    child ← parse_condition u f depth
    more ← consume (codes ",")
    if more
        then (do skip_spaces; children ← parse_members u f depth; pure (cons child children))
        else pure (cons child nil)

  -- a nested group such as not.and(...), whose "(" is left to it, or a filter such as age.gte.18
  pub parse_condition : Unicode → ℕ → ℕ → Parse FilterNode
  parse_condition u zero depth p = raise out_of_fuel p
  parse_condition u (suc f) depth p = elim (group_prefix_at p.rest) [
    | none ↦ leaf u p
    | some g ↦ parse_group u f g.logic g.negate (suc depth) (advance (length g.prefix - 1) p)
  ]

abbrev pub group_fuel : Parser → ℕ
group_fuel p = 2 * length p.rest + 2

abbrev pub result_of {ℓ} : {A : Type ℓ} → Result (A × Parser) → Result A
result_of (ok (a, p)) = ok a
result_of (err e) = err e

-- The result of a parse that must have read all its input.
unfoldable pub run : {A : Type 0} → Parse A → Bytes → Result A
run m src = result_of ((do a ← m; expect_eof; pure a) (parser src))

unfoldable pub parse_logic_tree : Unicode → Bytes → Bool → Bytes → Result FilterNode
parse_logic_tree u logic negate value =
    wrap (in_logic_tree value)
      (run (parse_group u (group_fuel (parser value)) logic negate 1) value)

-- The path and the end of a key, behind its column.
unfoldable pub key_path : Unicode → Bytes → Parse FilterField
key_path u column = do
  path ← json_path u
  expect_eof
  pure (record { column = column; path = path })

-- A dot behind the column names an embedded resource, which is refused.
unfoldable pub parse_filter_key : Unicode → Bytes → Result FilterField
parse_filter_key u key = elim (name u (parser key)) [
  | err e ↦ err (in_filter_key key e)
  | ok (column, p) ↦
      if eqb (head_byte p.rest) b'.'
      then err (embedded_filter key)
      else wrap (in_filter_key key) (result_of (key_path u column p))
]

-- What the segments of a key make it, read from the last one: a column filter, a logic tree with its
-- operator and its negation, or a filter on an embedded resource.
pub data KeyKind : Type 0 where
  column_key embedded_key : KeyKind
  tree_key : Bytes → Bool → KeyKind

abbrev pub prefix_kind : Bytes → List Bytes → KeyKind
prefix_kind last [] = tree_key last false
prefix_kind last (q ∷ []) = if q == codes "not" then tree_key last true else embedded_key
prefix_kind last (q ∷ r ∷ more) = embedded_key

abbrev pub kind_of_segments : List Bytes → KeyKind
kind_of_segments [] = column_key
kind_of_segments (last ∷ prefix) =
    if last == codes "and" || last == codes "or" then prefix_kind last prefix else column_key

unfoldable pub key_kind : Bytes → KeyKind
key_kind key = kind_of_segments (reverse (split b'.' key))

abbrev upper_byte : ℕ → ℕ
upper_byte c = if leb b'a' c && leb c b'z' then c - 32 else c

-- strings.ToUpper, on "and" and "or"
unfoldable pub to_upper : Bytes → Bytes
to_upper s = map upper_byte s

unfoldable pub parse_column_filter : Unicode → Bytes → Bytes → Result FilterNode
parse_column_filter u key value = elim (parse_filter_key u key) [
  | err e ↦ err e
  | ok field ↦ elim (wrap (in_filter value) (run (operation u false) value)) [
    | err e ↦ err e
    | ok c ↦ ok (condition (record c { field = field }))
  ]
]

unfoldable pub parse_filter : Unicode → RawFilter → Result FilterNode
parse_filter u f = elim (key_kind f.key) [
  | column_key ↦ parse_column_filter u f.key f.value
  | embedded_key ↦ err (embedded_filter f.key)
  | tree_key last negate ↦ parse_logic_tree u (to_upper last) negate f.value
]
