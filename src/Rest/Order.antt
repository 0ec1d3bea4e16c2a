-- ===== src/Rest/Order.antt =====
-- pkg/rest/order_by.go, and buildOrderByClause of pkg/rest/query.go: the order of the rows.
pub mod Suffixes
use mathlib.Core.List.{reverse}
use pigo.Base.{
  ℕ, zero, suc, ◌-◌, Bool, true, false, not, ◌&&◌, ◌||◌, Option, none, some, List, [], ◌∷◌, ◌++◌,
  eqb, length, drop, is_empty, take_while, if◌then◌else◌, ltb, leb,
}
use pigo.Base.Int.{ℤ, pos, negsuc, ◌+ℤ◌}
use pigo.Base.Bytes.{Bytes, codes, has_prefix, has_suffix, trim_suffix, contains_byte, join, lookup}
use pigo.Base.Utf8.{Unicode, decode_rune, rune_error, trim_space, trim_func, to_lower}
use pigo.Pgx.Schema.{Table, Column}
use pigo.Rest.Args.{Args, find_column}
use pigo.Rest.Error.{Result, ok, err, no_column, invalid_ordering, ◌>>=◌}
use pigo.Rest.Filter.Sql.{Env, add_text}

pub record OrderParam : Type 0 where
  pub column : Bytes
  pub direction : Bytes
  pub nulls_position : Bytes
  pub similarity : Bytes

-- `range` over a string and WriteRune: a byte that starts no rune becomes U+FFFD. `inside` counts
-- the bytes left of a rune.
unfoldable pub to_valid_utf8 : ℕ → Bytes → Bytes
to_valid_utf8 inside [] = []
to_valid_utf8 (suc inside) (c ∷ s) = c ∷ to_valid_utf8 inside s
to_valid_utf8 zero (c ∷ s) =
    let (r, size) = decode_rune (c ∷ s) in
    let rest = to_valid_utf8 (size - 1) s in
    if eqb r rune_error && eqb size 1 then 239 ∷ 191 ∷ 189 ∷ rest else c ∷ rest

-- parenDepth, which may fall below zero
abbrev pub next_depth : ℕ → ℤ → ℤ
next_depth c depth =
    if eqb c b'(' then depth +ℤ pos 1 else if eqb c b')' then depth +ℤ negsuc 0 else depth

abbrev pub is_zero : ℤ → Bool
is_zero (pos n) = eqb n 0
is_zero (negsuc n) = false

-- The loop of splitOrderParamString, with what it has of the part at hand.
unfoldable pub split_order : ℤ → Bytes → Bytes → List Bytes
split_order depth current [] = if is_empty current then [] else current ∷ []
split_order depth current (c ∷ s) =
    let separates = eqb c b',' && is_zero depth in
    let rest = split_order (next_depth c depth) (if separates then [] else current ++ c ∷ []) s in
    if separates then current ∷ rest else rest

unfoldable pub split_order_param_string : Bytes → List Bytes
split_order_param_string order = split_order (pos 0) [] (to_valid_utf8 0 order)

-- \s of package regexp
abbrev pub is_regexp_space : ℕ → Bool
is_regexp_space c = contains_byte c (32 ∷ 9 ∷ 10 ∷ 12 ∷ 13 ∷ [])

-- `([^)]+)\)` behind `\s*`: where nothing but spaces stands before the parenthesis, the expression
-- gives the last of them back.
abbrev pub second_group : Bytes → Bytes → Option Bytes
second_group spaces arg =
    if is_empty arg
    then (if is_empty spaces then none else some (drop (length spaces - 1) spaces))
    else some arg

unfoldable pub match_second : Bytes → Option Bytes
match_second s =
    let spaces = take_while is_regexp_space s in
    let rest = drop (length spaces) s in
    let arg = take_while (λ c. not (eqb c b')')) rest in
    if is_empty (drop (length arg) rest) then none else second_group spaces arg

-- The expression similarity\(([^,]+),\s*([^)]+)\) at the start of a text, with its two groups.
unfoldable pub similarity_at : Bytes → Option (Bytes × Bytes)
similarity_at s =
    let body = drop 11 s in
    let first = take_while (λ c. not (eqb c b',')) body in
    let behind = drop (length first) body in
    if has_prefix s (codes "similarity(") && not (is_empty first) && not (is_empty behind)
    then elim (match_second (drop 1 behind)) [ none ↦ none | some arg ↦ some (first, arg) ]
    else none

-- FindStringSubmatch: the leftmost match
unfoldable pub find_similarity : Bytes → Option (Bytes × Bytes)
find_similarity [] = none
find_similarity (c ∷ s) =
    let later = find_similarity s in
    elim (similarity_at (c ∷ s)) [ none ↦ later | some groups ↦ some groups ]

-- The direction that a suffix names, and the text without it.
unfoldable pub cut_direction : Bytes → Bytes × Bytes
cut_direction part =
    if has_suffix part (codes ".desc")
    then (trim_suffix part (codes ".desc"), codes "desc")
    else if has_suffix part (codes ".asc")
    then (trim_suffix part (codes ".asc"), codes "asc")
    else (part, codes "asc")

unfoldable pub cut_nulls : Bytes → Bytes × Bytes
cut_nulls name =
    if has_suffix name (codes ".nullsfirst")
    then (trim_suffix name (codes ".nullsfirst"), codes "first")
    else if has_suffix name (codes ".nullslast")
    then (trim_suffix name (codes ".nullslast"), codes "last")
    else (name, codes "last")

-- most similar first, unless the suffix says otherwise
abbrev pub similarity_direction : Bytes → Bytes
similarity_direction part =
    if has_suffix part (codes ".desc")
    then codes "desc"
    else if has_suffix part (codes ".asc")
    then codes "asc"
    else codes "desc"

module _ (u : Unicode) where
  -- one part of the list, trimmed and not empty
  unfoldable pub parse_order_part : Bytes → OrderParam
  parse_order_part part = elim (find_similarity part) [
    | some (column, search) ↦
        let (name, nulls) = cut_nulls (trim_space u column) in
        record {
          column = name;
          direction = similarity_direction part;
          nulls_position = nulls;
          similarity = trim_func (λ c. contains_byte c (codes "'\"")) (trim_space u search);
        }
    | none ↦
        let (rest, direction) = cut_direction part in
        let (name, nulls) = cut_nulls rest in
        record { column = name; direction = direction; nulls_position = nulls; similarity = [] }
  ]

  unfoldable pub parse_order_parts : List Bytes → List OrderParam
  parse_order_parts [] = []
  parse_order_parts (part ∷ parts) =
      let trimmed = trim_space u part in
      let rest = parse_order_parts parts in
      if is_empty trimmed then rest else parse_order_part trimmed ∷ rest

  unfoldable pub parse_order_param : Bytes → List OrderParam
  parse_order_param order = parse_order_parts (split_order_param_string order)

abbrev pub order_directions : List (Bytes × Bytes)
order_directions = (codes "asc", codes "ASC") ∷ (codes "desc", codes "DESC") ∷ []

abbrev pub nulls_positions : List (Bytes × Bytes)
nulls_positions = (codes "first", codes "NULLS FIRST") ∷ (codes "last", codes "NULLS LAST") ∷ []

abbrev pub order_expression : Env → Column → OrderParam → Args → Bytes × Args
order_expression env col o args =
    if is_empty o.similarity
    then (env.quote_ident col.name, args)
    else (let (ph, args') = add_text o.similarity args in
        (codes "similarity(" ++ env.quote_ident col.name ++ codes ", " ++ ph ++ codes ")", args'))

-- The words of a direction and of a position of nulls; a failure names the column.
abbrev pub ordering_words : Env → OrderParam → Result (Bytes × Bytes)
ordering_words env o = elim (lookup (to_lower env.unicode o.direction) order_directions) [
  | none ↦ err (invalid_ordering o.column)
  | some direction ↦ elim (lookup (to_lower env.unicode o.nulls_position) nulls_positions) [
    | none ↦ err (invalid_ordering o.column)
    | some nulls ↦ ok (direction, nulls)
  ]
]

unfoldable pub order_clause : Env → Table → OrderParam → Args → Result (Bytes × Args)
order_clause env table o args = elim (find_column table o.column) [
  | none ↦ err (no_column table.name o.column)
  | some col ↦ do
    (direction, nulls) ← ordering_words env o
    ok (
      (order_expression env col o args).0 ++ codes " " ++ direction ++ codes " " ++ nulls,
      (order_expression env col o args).1,
    )
]

unfoldable pub order_clauses : Env → Table → List OrderParam → Args → Result (List Bytes × Args)
order_clauses env table [] args = ok ([], args)
order_clauses env table (o ∷ order) args = do
  (clause, args') ← order_clause env table o args
  (clauses, args'') ← order_clauses env table order args'
  ok (clause ∷ clauses, args'')

unfoldable pub build_order_by_clause : Env → Table → List OrderParam → Args → Result (Bytes × Args)
build_order_by_clause env table order args = do
  (clauses, args') ← order_clauses env table order args
  ok (join (codes ", ") clauses, args')
