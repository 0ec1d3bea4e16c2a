-- ===== src/Rest/Arrays.antt =====
-- Array literals of PostgreSQL: pgArrayLiteral of pkg/rest/filter.go, and the older shorthand of
-- pkg/rest/util.go.
use pigo.Base.{
  ◌&&◌, ◌||◌, List, [], ◌∷◌, ◌++◌, map, eqb, length, take, drop, is_empty, if◌then◌else◌, ◌-◌,
}
use pigo.Base.Bytes.{Bytes, codes, contains_byte, has_prefix, has_suffix, join, split}
use pigo.Base.Utf8.{Unicode, trim_space}

-- a quote or a backslash gets a backslash in front
unfoldable pub escape : Bytes → Bytes
escape [] = []
escape (c ∷ s) = if eqb c b'"' || eqb c b'\\' then b'\\' ∷ c ∷ escape s else c ∷ escape s

unfoldable pub quote_element : Bytes → Bytes
quote_element s = codes "\"" ++ escape s ++ codes "\""

unfoldable pub pg_array_literal : List Bytes → Bytes
pg_array_literal values = codes "{" ++ join (codes ",") (map quote_element values) ++ codes "}"

-- strings.ReplaceAll of a quote by a backslash and a quote
unfoldable pub escape_quotes : Bytes → Bytes
escape_quotes [] = []
escape_quotes (c ∷ s) = if eqb c b'"' then b'\\' ∷ c ∷ escape_quotes s else c ∷ escape_quotes s

unfoldable pub strip_braces : Bytes → Bytes
strip_braces val =
    if has_prefix val (codes "{") && has_suffix val (codes "}")
    then drop 1 (take (length val - 1) val)
    else val

module _ (u : Unicode) where
  -- the parts of the shorthand that are not blank, quoted
  unfoldable pub quoted_parts : List Bytes → List Bytes
  quoted_parts [] = []
  quoted_parts (part ∷ parts) =
      let trimmed = trim_space u part in
      let rest = quoted_parts parts in
      if is_empty trimmed then rest else (codes "\"" ++ escape_quotes trimmed ++ codes "\"") ∷ rest

  unfoldable pub convert_trimmed : Bytes → Bytes
  convert_trimmed val =
      if contains_byte b'"' val || has_prefix val (codes "[")
      then val
      else codes "{" ++ join (codes ",") (quoted_parts (split b',' (strip_braces val))) ++ codes "}"

  -- convertToPostgresArrayOrJSON
  unfoldable pub convert_to_postgres_array_or_json : Bytes → Bytes
  convert_to_postgres_array_or_json val = convert_trimmed (trim_space u val)
