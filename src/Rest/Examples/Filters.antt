-- ===== src/Rest/Examples/Filters.antt =====
-- Tests and witnesses of the filters.
use pigo.Base.{ℕ, ◌≡◌, refl, true, false, List, [], ◌∷◌, ◌++◌, map}
use pigo.Base.Int.{pos}
use pigo.Base.Json.{text}
use pigo.Rest.Args.{Arg, value}
use pigo.Rest.Error.{ok, err, embedded_filter}
use pigo.Rest.Filter.{
  quantifiable, RawFilter, JsonPathStep, FilterField, FilterNode, group, condition, nil, cons,
}
use pigo.Rest.Filter.Total.{Ends, IsFilter, parse_filter_total}
use pigo.Rest.Filter.Binding.{
  shape_step, shape_field, shape_condition, shape, outline, sql_of_shape,
}
use pigo.Rest.Filter.Params.{params}
use pigo.Rest.Filter.Spelled.{Spells, reading}
use pigo.Rest.Filter.Places.{sql_spells_filter}
use pigo.Rest.Filter.Quoting.{at, unspaced, quoted_list_is_read_back}
use pigo.Rest.Examples.Data.{ascii_only, env, people, raw}
use pigo.Base.Bytes.{
  ◌==◌, has_prefix, contains_byte, join, split, lookup, index_map, decimal, has_suffix, trim_suffix,
  Bytes, codes,
}
use pigo.Base.Utf8.{decode_rune, to_lower, drop_while, trim_func, trim_space}
use pigo.Rest.Filter.Parser.{
  ◌>>=◌, pure, raise, errorf, eof, peek, consume, expect, expect_eof, scan, skip_spaces, until,
  unquote, quoted, quoted_element, operand_in_tree, operand, element, elements, all_elements,
  bare_list, list_operand,
}
use pigo.Rest.Filter.Names.{
  digits_value, arrow_at, is_name_rune, name_rune_at, name_goes_on, name_length, bare_name, name,
  array_index_at, array_index, path_step, path_steps, json_path,
}
use pigo.Rest.Filter.Parse.{
  bare_condition, lang_modifier, any_or_all, quant_modifier, in_operation, is_operation,
  valued_operation, operation_of, operation, leaf, group_prefix_at, run, parse_logic_tree, key_path,
  parse_filter_key, key_kind, to_upper, parse_column_filter, parse_filter, parse_group,
  parse_members, parse_condition,
}
use pigo.Rest.Args.{placeholder, add, find_column}
use pigo.Rest.Arrays.{
  escape, quote_element, pg_array_literal, escape_quotes, strip_braces, quoted_parts,
  convert_trimmed, convert_to_postgres_array_or_json,
}
use pigo.Rest.Filter.Sql.{
  step_sql, steps_sql, field_sql, text_search_sql, bound_value, operator_sql, comparison_sql,
  condition_sql, where_conditions, build_where_clause, node_sql, nodes_sql,
}
use pigo.Base.{take_while}

abbrev tree_filter : RawFilter
tree_filter = raw (codes "or") (codes "(age.gt.7,not.and(name.in.(\"a,b\",c),data->>k.eq.1))")

abbrev field_of : Bytes → List JsonPathStep → FilterField
field_of column path = record { column = column; path = path }

-- the tree of `tree_filter`, but for the values that the client chose
abbrev tree : Bytes → List Bytes → Bytes → Bytes → FilterNode
tree age names key v = group false (codes "OR") (
    cons
      (condition (record {
        negate = false;
        field = field_of (codes "age") [];
        operator = codes "gt";
        quant = [];
        lang = [];
        value = age;
        list = [];
      }))
      (cons
        (group true (codes "AND") (
          cons
            (condition (record {
              negate = false;
              field = field_of (codes "name") [];
              operator = codes "in";
              quant = [];
              lang = [];
              value = [];
              list = names;
            }))
            (cons
              (condition (record {
                negate = false;
                field = field_of (codes "data") (
                    record { arrow = codes "->>"; key = key; index = pos 0; is_index = false }
                    ∷ []);
                operator = codes "eq";
                quant = [];
                lang = [];
                value = v;
                list = [];
              }))
              nil)))
        nil))

tree_is_parsed :
    parse_filter ascii_only tree_filter
    ≡ ok (tree (codes "7") (codes "a,b" ∷ codes "c" ∷ []) (codes "k") (codes "1"))
unfolding ◌==◌ has_prefix contains_byte join split lookup index_map decimal has_suffix trim_suffix
    decode_rune to_lower drop_while trim_func trim_space ◌>>=◌ pure raise errorf eof peek consume
    expect expect_eof scan skip_spaces until unquote quoted quoted_element operand_in_tree operand
    element elements all_elements bare_list list_operand digits_value arrow_at is_name_rune
    name_rune_at name_goes_on name_length bare_name name array_index_at array_index path_step
    path_steps json_path bare_condition lang_modifier any_or_all quant_modifier in_operation
    is_operation valued_operation operation_of operation leaf group_prefix_at run parse_logic_tree
    key_path parse_filter_key key_kind to_upper parse_column_filter parse_filter parse_group
    parse_members parse_condition placeholder add find_column escape quote_element pg_array_literal
    escape_quotes strip_braces quoted_parts convert_trimmed convert_to_postgres_array_or_json
    step_sql steps_sql field_sql text_search_sql bound_value operator_sql comparison_sql
    condition_sql where_conditions build_where_clause node_sql nodes_sql take_while quantifiable
tree_is_parsed = refl

embedded_is_refused :
    parse_filter ascii_only (raw (codes "orders.or") (codes "(a.eq.1)"))
    ≡ err (embedded_filter (codes "orders.or"))
unfolding ◌==◌ has_prefix contains_byte join split lookup index_map decimal has_suffix trim_suffix
    decode_rune to_lower drop_while trim_func trim_space ◌>>=◌ pure raise errorf eof peek consume
    expect expect_eof scan skip_spaces until unquote quoted quoted_element operand_in_tree operand
    element elements all_elements bare_list list_operand digits_value arrow_at is_name_rune
    name_rune_at name_goes_on name_length bare_name name array_index_at array_index path_step
    path_steps json_path bare_condition lang_modifier any_or_all quant_modifier in_operation
    is_operation valued_operation operation_of operation leaf group_prefix_at run parse_logic_tree
    key_path parse_filter_key key_kind to_upper parse_column_filter parse_filter parse_group
    parse_members parse_condition placeholder add find_column escape quote_element pg_array_literal
    escape_quotes strip_braces quoted_parts convert_trimmed convert_to_postgres_array_or_json
    step_sql steps_sql field_sql text_search_sql bound_value operator_sql comparison_sql
    condition_sql where_conditions build_where_clause node_sql nodes_sql take_while quantifiable
embedded_is_refused = refl

abbrev tree_sql : Bytes
tree_sql = codes "(\"age\" > $1 OR NOT (\"name\" = ANY($2) AND (\"data\"->>$3::text) = $4))"

abbrev tree_params : List Arg
tree_params =
    value (text (codes "7"))
    ∷ value (text (codes "{\"a,b\",\"c\"}"))
    ∷ value (text (codes "k"))
    ∷ value (text (codes "1"))
    ∷ []

tree_is_rendered :
    node_sql env people (tree (codes "7") (codes "a,b" ∷ codes "c" ∷ []) (codes "k") (codes "1")) []
    ≡ ok (tree_sql, tree_params)
unfolding ◌==◌ has_prefix contains_byte join split lookup index_map decimal has_suffix trim_suffix
    decode_rune to_lower drop_while trim_func trim_space ◌>>=◌ pure raise errorf eof peek consume
    expect expect_eof scan skip_spaces until unquote quoted quoted_element operand_in_tree operand
    element elements all_elements bare_list list_operand digits_value arrow_at is_name_rune
    name_rune_at name_goes_on name_length bare_name name array_index_at array_index path_step
    path_steps json_path bare_condition lang_modifier any_or_all quant_modifier in_operation
    is_operation valued_operation operation_of operation leaf group_prefix_at run parse_logic_tree
    key_path parse_filter_key key_kind to_upper parse_column_filter parse_filter parse_group
    parse_members parse_condition placeholder add find_column escape quote_element pg_array_literal
    escape_quotes strip_braces quoted_parts convert_trimmed convert_to_postgres_array_or_json
    step_sql steps_sql field_sql text_search_sql bound_value operator_sql comparison_sql
    condition_sql where_conditions build_where_clause node_sql nodes_sql take_while quantifiable
tree_is_rendered = refl

parse_filter_total_example : Ends IsFilter (parse_filter ascii_only tree_filter)
parse_filter_total_example = parse_filter_total ascii_only tree_filter

same_shape :
    shape (tree (codes "7") (codes "a,b" ∷ codes "c" ∷ []) (codes "k") (codes "1"))
    ≡ shape (tree (codes "0) OR (1=1") (codes "'; --" ∷ []) (codes "') x") (codes "*"))
unfolding shape shape_condition shape_field shape_step ◌==◌
same_shape = refl

sql_of_shape_example :
    outline (
      node_sql env people
        (tree (codes "7") (codes "a,b" ∷ codes "c" ∷ []) (codes "k") (codes "1"))
        [])
    ≡ outline (
        node_sql env people
          (tree (codes "0) OR (1=1") (codes "'; --" ∷ []) (codes "') x") (codes "*"))
          [])
sql_of_shape_example =
    sql_of_shape env people
      (tree (codes "7") (codes "a,b" ∷ codes "c" ∷ []) (codes "k") (codes "1"))
      (tree (codes "0) OR (1=1") (codes "'; --" ∷ []) (codes "') x") (codes "*")) [] [] same_shape
      refl

sql_spells_filter_example :
    Spells tree_params
      (reading env people (tree (codes "7") (codes "a,b" ∷ codes "c" ∷ []) (codes "k") (codes "1")))
      tree_sql
    × (tree_params
        ≡ []
          ++ params env people
              (tree (codes "7") (codes "a,b" ∷ codes "c" ∷ []) (codes "k") (codes "1")))
sql_spells_filter_example =
    sql_spells_filter env people
      (tree (codes "7") (codes "a,b" ∷ codes "c" ∷ []) (codes "k") (codes "1")) [] tree_sql
      tree_params tree_is_rendered

quoted_list_is_read_back_example :
    (m : ℕ) × (list_operand true (
        at
          (codes "("
            ++ join (codes ",") (map quote_element (codes "a\"b" ∷ codes ",)" ∷ []))
            ++ codes ")"
            ++ codes ",c")
          9)
      ≡ ok (codes "a\"b" ∷ codes ",)" ∷ [], at (unspaced (codes ",c")) m))
quoted_list_is_read_back_example =
    quoted_list_is_read_back true (codes "a\"b" ∷ codes ",)" ∷ []) (codes ",c") 9
