-- ===== src/Rest/Examples/Statements.antt =====
-- Tests and witnesses of the statements, the headers, the order and the responses.
use pigo.Rest.Server.{Request}
use pigo.Base.{
  not, ◌&&◌, ℕ, ◌≡◌, refl, true, false, none, some, List, [], ◌∷◌, ◌++◌, ◌⊎◌, arith, ◌≤◌, ◌<◌, ◌+◌,
}
use pigo.Base.Int.{pos}
use pigo.Base.Json.{text, number}
use pigo.Rest.Args.{Arg, value}
use pigo.Rest.Error.{ok}
use pigo.Rest.Filter.{quantifiable}
use pigo.Pgx.Schema.{is_composite}
use pigo.Rest.Order.Suffixes.{order_of_suffixes}
use pigo.Rest.Query.Filtered.{IsUpdate, IsFiltered, delete_head, writes_keep_filters}
use pigo.Rest.Query.Collected.{is_filter, is_offered, filters_are_collected}
use pigo.Rest.Query.Counting.{unpaged, select_is_paged}
use pigo.Rest.Query.Sorted.{swap, statements_are_deterministic}
use pigo.Rest.Headers.{Prefer}
use pigo.Rest.Server.{answer}
use pigo.Rest.Server.Ranges.{content_range_of_page}
use pigo.Rest.Server.Answers.{Answers, IsServedFrom, request_is_served}
use pigo.Rest.Examples.Data.{
  ascii_only, env, people, by_age, rename, rename_walked, server, echo, patch,
}
use pigo.Base.Bytes.{
  ◌==◌, has_prefix, contains_byte, join, split, lookup, index_map, decimal, has_suffix, trim_suffix,
  Bytes, codes,
}
use pigo.Base.Utf8.{decode_rune, to_lower, drop_while, trim_func, trim_space}
use pigo.Rest.Filter.Parser.{
  ◌>>=◌, pure, raise, errorf, eof, peek, consume, expect, expect_eof, scan, skip_spaces, until,
  unquote, quoted, quoted_element, operand_in_tree, operand, element, elements, all_elements,
  bare_list, list_operand,
}
use pigo.Rest.Filter.Names.{
  digits_value, arrow_at, is_name_rune, name_rune_at, name_goes_on, name_length, bare_name, name,
  array_index_at, array_index, path_step, path_steps, json_path,
}
use pigo.Rest.Filter.Parse.{
  bare_condition, lang_modifier, any_or_all, quant_modifier, in_operation, is_operation,
  valued_operation, operation_of, operation, leaf, group_prefix_at, run, parse_logic_tree, key_path,
  parse_filter_key, key_kind, to_upper, parse_column_filter, parse_filter, parse_group,
  parse_members, parse_condition,
}
use pigo.Rest.Args.{placeholder, add, find_column}
use pigo.Rest.Arrays.{
  escape, quote_element, pg_array_literal, escape_quotes, strip_braces, quoted_parts,
  convert_trimmed, convert_to_postgres_array_or_json,
}
use pigo.Rest.Filter.Sql.{
  step_sql, steps_sql, field_sql, text_search_sql, bound_value, operator_sql, comparison_sql,
  condition_sql, where_conditions, build_where_clause, node_sql, nodes_sql,
}
use pigo.Base.{take_while}
use pigo.Rest.Query.{
  le_bytes, insert_key, sorted, get_value, scan_int, parse_int_param, is_reserved_param,
  collect_filters, parse_query_params, column_cast_expression, returning_list, selected_columns,
  select_list, build_select_query, column_value_expression, column_value, column_values,
  build_insert_query, build_update_query, build_delete_query, StringMap,
}
use pigo.Rest.Order.{
  to_valid_utf8, split_order, split_order_param_string, match_second, similarity_at,
  find_similarity, cut_direction, cut_nulls, parse_order_part, parse_order_parts, parse_order_param,
  order_clause, order_clauses, build_order_by_clause,
}
use pigo.Rest.Headers.{
  cut_equals, is_valid_return, is_valid_count, apply_preference, apply_directive, apply_directives,
  parse_prefer, parse_headers, wants_count_exact, wants_count_estimated, wants_count_planned,
  wants_representation, wants_headers_only,
}
use pigo.Rest.Server.{
  format_int, wrap64, range_end, content_range, table_key, table_from_path, trim_prefix, counted,
  run_query, execute_query, handle_get, handle_post, handle_patch, handle_delete, handle_method,
  handle_request,
}
use pigo.Base.Int.{◌+ℤ◌}

abbrev delete_sql : Bytes
delete_sql = codes "DELETE FROM \"public\".\"people\" WHERE \"age\" > $1"

delete_is_built :
    build_delete_query env people by_age none ≡ ok (delete_sql, value (text (codes "7")) ∷ [])
unfolding ◌==◌ has_prefix contains_byte join split lookup index_map decimal has_suffix trim_suffix
    decode_rune to_lower drop_while trim_func trim_space ◌>>=◌ pure raise errorf eof peek consume
    expect expect_eof scan skip_spaces until unquote quoted quoted_element operand_in_tree operand
    element elements all_elements bare_list list_operand digits_value arrow_at is_name_rune
    name_rune_at name_goes_on name_length bare_name name array_index_at array_index path_step
    path_steps json_path bare_condition lang_modifier any_or_all quant_modifier in_operation
    is_operation valued_operation operation_of operation leaf group_prefix_at run parse_logic_tree
    key_path parse_filter_key key_kind to_upper parse_column_filter parse_filter parse_group
    parse_members parse_condition placeholder add find_column escape quote_element pg_array_literal
    escape_quotes strip_braces quoted_parts convert_trimmed convert_to_postgres_array_or_json
    step_sql steps_sql field_sql text_search_sql bound_value operator_sql comparison_sql
    condition_sql where_conditions build_where_clause node_sql nodes_sql take_while le_bytes
    insert_key sorted get_value scan_int parse_int_param is_reserved_param collect_filters
    parse_query_params column_cast_expression returning_list selected_columns select_list
    build_select_query column_value_expression column_value column_values build_insert_query
    build_update_query build_delete_query to_valid_utf8 split_order split_order_param_string
    match_second similarity_at find_similarity cut_direction cut_nulls parse_order_part
    parse_order_parts parse_order_param order_clause order_clauses build_order_by_clause cut_equals
    is_valid_return is_valid_count apply_preference apply_directive apply_directives parse_prefer
    parse_headers wants_count_exact wants_count_estimated wants_count_planned wants_representation
    wants_headers_only quantifiable
delete_is_built = refl

abbrev update_sql : Bytes
update_sql = codes "UPDATE \"public\".\"people\" SET \"age\" = $1, \"name\" = $2 WHERE \"age\" > $3"

abbrev update_args : List Arg
update_args = value (number (codes "3")) ∷ value (text (codes "x")) ∷ value (text (codes "7")) ∷ []

update_is_built : build_update_query env people rename by_age none ≡ ok (update_sql, update_args)
unfolding ◌==◌ has_prefix contains_byte join split lookup index_map decimal has_suffix trim_suffix
    decode_rune to_lower drop_while trim_func trim_space ◌>>=◌ pure raise errorf eof peek consume
    expect expect_eof scan skip_spaces until unquote quoted quoted_element operand_in_tree operand
    element elements all_elements bare_list list_operand digits_value arrow_at is_name_rune
    name_rune_at name_goes_on name_length bare_name name array_index_at array_index path_step
    path_steps json_path bare_condition lang_modifier any_or_all quant_modifier in_operation
    is_operation valued_operation operation_of operation leaf group_prefix_at run parse_logic_tree
    key_path parse_filter_key key_kind to_upper parse_column_filter parse_filter parse_group
    parse_members parse_condition placeholder add find_column escape quote_element pg_array_literal
    escape_quotes strip_braces quoted_parts convert_trimmed convert_to_postgres_array_or_json
    step_sql steps_sql field_sql text_search_sql bound_value operator_sql comparison_sql
    condition_sql where_conditions build_where_clause node_sql nodes_sql take_while le_bytes
    insert_key sorted get_value scan_int parse_int_param is_reserved_param collect_filters
    parse_query_params column_cast_expression returning_list selected_columns select_list
    build_select_query column_value_expression column_value column_values build_insert_query
    build_update_query build_delete_query to_valid_utf8 split_order split_order_param_string
    match_second similarity_at find_similarity cut_direction cut_nulls parse_order_part
    parse_order_parts parse_order_param order_clause order_clauses build_order_by_clause cut_equals
    is_valid_return is_valid_count apply_preference apply_directive apply_directives parse_prefer
    parse_headers wants_count_exact wants_count_estimated wants_count_planned wants_representation
    wants_headers_only quantifiable
update_is_built = refl

-- a GET for the second and third row, with the count of all
abbrev browse : Request
browse = record patch {
  method = codes "GET";
  query =
      (codes "age", codes "gt.7" ∷ [])
      ∷ (codes "limit", codes "2" ∷ [])
      ∷ (codes "offset", codes "1" ∷ [])
      ∷ [];
}

abbrev select_sql : Bytes
select_sql =
    codes "SELECT \"age\", \"name\", \"data\" FROM \"public\".\"people\" WHERE \"age\" > $1"

select_is_built :
    build_select_query env people (unpaged by_age) ≡ ok (select_sql, value (text (codes "7")) ∷ [])
unfolding ◌==◌ has_prefix contains_byte join split lookup index_map decimal has_suffix trim_suffix
    decode_rune to_lower drop_while trim_func trim_space ◌>>=◌ pure raise errorf eof peek consume
    expect expect_eof scan skip_spaces until unquote quoted quoted_element operand_in_tree operand
    element elements all_elements bare_list list_operand digits_value arrow_at is_name_rune
    name_rune_at name_goes_on name_length bare_name name array_index_at array_index path_step
    path_steps json_path bare_condition lang_modifier any_or_all quant_modifier in_operation
    is_operation valued_operation operation_of operation leaf group_prefix_at run parse_logic_tree
    key_path parse_filter_key key_kind to_upper parse_column_filter parse_filter parse_group
    parse_members parse_condition placeholder add find_column escape quote_element pg_array_literal
    escape_quotes strip_braces quoted_parts convert_trimmed convert_to_postgres_array_or_json
    step_sql steps_sql field_sql text_search_sql bound_value operator_sql comparison_sql
    condition_sql where_conditions build_where_clause node_sql nodes_sql take_while le_bytes
    insert_key sorted get_value scan_int parse_int_param is_reserved_param collect_filters
    parse_query_params column_cast_expression returning_list selected_columns select_list
    build_select_query column_value_expression column_value column_values build_insert_query
    build_update_query build_delete_query to_valid_utf8 split_order split_order_param_string
    match_second similarity_at find_similarity cut_direction cut_nulls parse_order_part
    parse_order_parts parse_order_param order_clause order_clauses build_order_by_clause cut_equals
    is_valid_return is_valid_count apply_preference apply_directive apply_directives parse_prefer
    parse_headers wants_count_exact wants_count_estimated wants_count_planned wants_representation
    wants_headers_only quantifiable is_composite
select_is_built = refl

browse_is_by_age : parse_query_params env.unicode browse.query ≡ by_age
unfolding ◌==◌ has_prefix contains_byte join split lookup index_map decimal has_suffix trim_suffix
    decode_rune to_lower drop_while trim_func trim_space ◌>>=◌ pure raise errorf eof peek consume
    expect expect_eof scan skip_spaces until unquote quoted quoted_element operand_in_tree operand
    element elements all_elements bare_list list_operand digits_value arrow_at is_name_rune
    name_rune_at name_goes_on name_length bare_name name array_index_at array_index path_step
    path_steps json_path bare_condition lang_modifier any_or_all quant_modifier in_operation
    is_operation valued_operation operation_of operation leaf group_prefix_at run parse_logic_tree
    key_path parse_filter_key key_kind to_upper parse_column_filter parse_filter parse_group
    parse_members parse_condition placeholder add find_column escape quote_element pg_array_literal
    escape_quotes strip_braces quoted_parts convert_trimmed convert_to_postgres_array_or_json
    step_sql steps_sql field_sql text_search_sql bound_value operator_sql comparison_sql
    condition_sql where_conditions build_where_clause node_sql nodes_sql take_while le_bytes
    insert_key sorted get_value scan_int parse_int_param is_reserved_param collect_filters
    parse_query_params column_cast_expression returning_list selected_columns select_list
    build_select_query column_value_expression column_value column_values build_insert_query
    build_update_query build_delete_query to_valid_utf8 split_order split_order_param_string
    match_second similarity_at find_similarity cut_direction cut_nulls parse_order_part
    parse_order_parts parse_order_param order_clause order_clauses build_order_by_clause cut_equals
    is_valid_return is_valid_count apply_preference apply_directive apply_directives parse_prefer
    parse_headers wants_count_exact wants_count_estimated wants_count_planned wants_representation
    wants_headers_only quantifiable
browse_is_by_age = refl

browse_counts :
    wants_count_exact env.unicode (parse_headers env.unicode browse.prefer).prefer ≡ true
unfolding ◌==◌ has_prefix contains_byte join split lookup index_map decimal has_suffix trim_suffix
    decode_rune to_lower drop_while trim_func trim_space ◌>>=◌ pure raise errorf eof peek consume
    expect expect_eof scan skip_spaces until unquote quoted quoted_element operand_in_tree operand
    element elements all_elements bare_list list_operand digits_value arrow_at is_name_rune
    name_rune_at name_goes_on name_length bare_name name array_index_at array_index path_step
    path_steps json_path bare_condition lang_modifier any_or_all quant_modifier in_operation
    is_operation valued_operation operation_of operation leaf group_prefix_at run parse_logic_tree
    key_path parse_filter_key key_kind to_upper parse_column_filter parse_filter parse_group
    parse_members parse_condition placeholder add find_column escape quote_element pg_array_literal
    escape_quotes strip_braces quoted_parts convert_trimmed convert_to_postgres_array_or_json
    step_sql steps_sql field_sql text_search_sql bound_value operator_sql comparison_sql
    condition_sql where_conditions build_where_clause node_sql nodes_sql take_while le_bytes
    insert_key sorted get_value scan_int parse_int_param is_reserved_param collect_filters
    parse_query_params column_cast_expression returning_list selected_columns select_list
    build_select_query column_value_expression column_value column_values build_insert_query
    build_update_query build_delete_query to_valid_utf8 split_order split_order_param_string
    match_second similarity_at find_similarity cut_direction cut_nulls parse_order_part
    parse_order_parts parse_order_param order_clause order_clauses build_order_by_clause cut_equals
    is_valid_return is_valid_count apply_preference apply_directive apply_directives parse_prefer
    parse_headers wants_count_exact wants_count_estimated wants_count_planned wants_representation
    wants_headers_only quantifiable
browse_counts = refl

browse_finds_people :
    table_from_path server.tables (trim_prefix browse.path server.base_path) ≡ some people
unfolding ◌==◌ has_prefix contains_byte join split lookup index_map decimal has_suffix trim_suffix
    decode_rune to_lower drop_while trim_func trim_space ◌>>=◌ pure raise errorf eof peek consume
    expect expect_eof scan skip_spaces until unquote quoted quoted_element operand_in_tree operand
    element elements all_elements bare_list list_operand digits_value arrow_at is_name_rune
    name_rune_at name_goes_on name_length bare_name name array_index_at array_index path_step
    path_steps json_path bare_condition lang_modifier any_or_all quant_modifier in_operation
    is_operation valued_operation operation_of operation leaf group_prefix_at run parse_logic_tree
    key_path parse_filter_key key_kind to_upper parse_column_filter parse_filter parse_group
    parse_members parse_condition placeholder add find_column escape quote_element pg_array_literal
    escape_quotes strip_braces quoted_parts convert_trimmed convert_to_postgres_array_or_json
    step_sql steps_sql field_sql text_search_sql bound_value operator_sql comparison_sql
    condition_sql where_conditions build_where_clause node_sql nodes_sql take_while le_bytes
    insert_key sorted get_value scan_int parse_int_param is_reserved_param collect_filters
    parse_query_params column_cast_expression returning_list selected_columns select_list
    build_select_query column_value_expression column_value column_values build_insert_query
    build_update_query build_delete_query to_valid_utf8 split_order split_order_param_string
    match_second similarity_at find_similarity cut_direction cut_nulls parse_order_part
    parse_order_parts parse_order_param order_clause order_clauses build_order_by_clause cut_equals
    is_valid_return is_valid_count apply_preference apply_directive apply_directives parse_prefer
    parse_headers wants_count_exact wants_count_estimated wants_count_planned wants_representation
    wants_headers_only quantifiable format_int wrap64 range_end content_range table_key
    table_from_path trim_prefix
browse_finds_people = refl

select_is_paged_example :
    handle_get server echo browse people
    ≡ answer 200
        (select_sql ++ codes " LIMIT $2 OFFSET $3")
        (some (content_range (pos 2) (pos 1) 3))
unfolding decimal
select_is_paged_example =
    select_is_paged server echo browse people by_age select_sql (value (text (codes "7")) ∷ []) 3
      (select_sql ++ codes " LIMIT $2 OFFSET $3") refl browse_is_by_age refl refl browse_counts
      browse_finds_people select_is_built refl refl

statements_are_deterministic_example :
    (build_insert_query env people rename none ≡ build_insert_query env people rename_walked none)
    × (build_update_query env people rename by_age none
        ≡ build_update_query env people rename_walked by_age none)
statements_are_deterministic_example =
    statements_are_deterministic env people rename rename_walked by_age none
      (swap (codes "name", text (codes "x")) (codes "age", number (codes "3")) (λ e. cc))

abbrev preferred : Prefer
preferred = record { returns = codes "representation"; count = codes "exact" }

prefer_is_parsed :
    parse_prefer ascii_only (codes "return=representation, count=exact, return=all")
    ≡ some preferred
unfolding ◌==◌ has_prefix contains_byte join split lookup index_map decimal has_suffix trim_suffix
    decode_rune to_lower drop_while trim_func trim_space ◌>>=◌ pure raise errorf eof peek consume
    expect expect_eof scan skip_spaces until unquote quoted quoted_element operand_in_tree operand
    element elements all_elements bare_list list_operand digits_value arrow_at is_name_rune
    name_rune_at name_goes_on name_length bare_name name array_index_at array_index path_step
    path_steps json_path bare_condition lang_modifier any_or_all quant_modifier in_operation
    is_operation valued_operation operation_of operation leaf group_prefix_at run parse_logic_tree
    key_path parse_filter_key key_kind to_upper parse_column_filter parse_filter parse_group
    parse_members parse_condition placeholder add find_column escape quote_element pg_array_literal
    escape_quotes strip_braces quoted_parts convert_trimmed convert_to_postgres_array_or_json
    step_sql steps_sql field_sql text_search_sql bound_value operator_sql comparison_sql
    condition_sql where_conditions build_where_clause node_sql nodes_sql take_while le_bytes
    insert_key sorted get_value scan_int parse_int_param is_reserved_param collect_filters
    parse_query_params column_cast_expression returning_list selected_columns select_list
    build_select_query column_value_expression column_value column_values build_insert_query
    build_update_query build_delete_query to_valid_utf8 split_order split_order_param_string
    match_second similarity_at find_similarity cut_direction cut_nulls parse_order_part
    parse_order_parts parse_order_param order_clause order_clauses build_order_by_clause cut_equals
    is_valid_return is_valid_count apply_preference apply_directive apply_directives parse_prefer
    parse_headers wants_count_exact wants_count_estimated wants_count_planned wants_representation
    wants_headers_only quantifiable
prefer_is_parsed = refl

content_range_of_page_example :
    (last : ℕ) × (content_range (pos 10) (pos 20) 25
      ≡ decimal 20 ++ codes "-" ++ decimal last ++ (codes "/" ++ decimal 25))
    × (20 ≤ last)
    × (last < 25)
    × ((last + 1 ≡ 20 + 10) ⊎ ((last + 1 ≡ 25) × (25 ≤ 20 + 10)))
content_range_of_page_example =
    content_range_of_page 10 20 25 (omega arith) (omega arith) (omega arith)

no_similarity : find_similarity (codes "age.nullslast.desc") ≡ none
unfolding ◌==◌ has_prefix contains_byte join split lookup index_map decimal has_suffix trim_suffix
    decode_rune to_lower drop_while trim_func trim_space ◌>>=◌ pure raise errorf eof peek consume
    expect expect_eof scan skip_spaces until unquote quoted quoted_element operand_in_tree operand
    element elements all_elements bare_list list_operand digits_value arrow_at is_name_rune
    name_rune_at name_goes_on name_length bare_name name array_index_at array_index path_step
    path_steps json_path bare_condition lang_modifier any_or_all quant_modifier in_operation
    is_operation valued_operation operation_of operation leaf group_prefix_at run parse_logic_tree
    key_path parse_filter_key key_kind to_upper parse_column_filter parse_filter parse_group
    parse_members parse_condition placeholder add find_column escape quote_element pg_array_literal
    escape_quotes strip_braces quoted_parts convert_trimmed convert_to_postgres_array_or_json
    step_sql steps_sql field_sql text_search_sql bound_value operator_sql comparison_sql
    condition_sql where_conditions build_where_clause node_sql nodes_sql take_while le_bytes
    insert_key sorted get_value scan_int parse_int_param is_reserved_param collect_filters
    parse_query_params column_cast_expression returning_list selected_columns select_list
    build_select_query column_value_expression column_value column_values build_insert_query
    build_update_query build_delete_query to_valid_utf8 split_order split_order_param_string
    match_second similarity_at find_similarity cut_direction cut_nulls parse_order_part
    parse_order_parts parse_order_param order_clause order_clauses build_order_by_clause cut_equals
    is_valid_return is_valid_count apply_preference apply_directive apply_directives parse_prefer
    parse_headers wants_count_exact wants_count_estimated wants_count_planned wants_representation
    wants_headers_only quantifiable
no_similarity = refl

no_similarity_behind : find_similarity (codes "age.desc.nullslast") ≡ none
unfolding ◌==◌ has_prefix contains_byte join split lookup index_map decimal has_suffix trim_suffix
    decode_rune to_lower drop_while trim_func trim_space ◌>>=◌ pure raise errorf eof peek consume
    expect expect_eof scan skip_spaces until unquote quoted quoted_element operand_in_tree operand
    element elements all_elements bare_list list_operand digits_value arrow_at is_name_rune
    name_rune_at name_goes_on name_length bare_name name array_index_at array_index path_step
    path_steps json_path bare_condition lang_modifier any_or_all quant_modifier in_operation
    is_operation valued_operation operation_of operation leaf group_prefix_at run parse_logic_tree
    key_path parse_filter_key key_kind to_upper parse_column_filter parse_filter parse_group
    parse_members parse_condition placeholder add find_column escape quote_element pg_array_literal
    escape_quotes strip_braces quoted_parts convert_trimmed convert_to_postgres_array_or_json
    step_sql steps_sql field_sql text_search_sql bound_value operator_sql comparison_sql
    condition_sql where_conditions build_where_clause node_sql nodes_sql take_while le_bytes
    insert_key sorted get_value scan_int parse_int_param is_reserved_param collect_filters
    parse_query_params column_cast_expression returning_list selected_columns select_list
    build_select_query column_value_expression column_value column_values build_insert_query
    build_update_query build_delete_query to_valid_utf8 split_order split_order_param_string
    match_second similarity_at find_similarity cut_direction cut_nulls parse_order_part
    parse_order_parts parse_order_param order_clause order_clauses build_order_by_clause cut_equals
    is_valid_return is_valid_count apply_preference apply_directive apply_directives parse_prefer
    parse_headers wants_count_exact wants_count_estimated wants_count_planned wants_representation
    wants_headers_only quantifiable
no_similarity_behind = refl

patch_is_answered :
    handle_request server echo patch
    ≡ answer 200
        (codes
          "UPDATE \"public\".\"people\" SET \"age\" = $1, \"name\" = $2 WHERE \"age\" > $3 RETURNING \"age\", \"name\", \"data\"")
        (some (codes "0-2/3"))
unfolding ◌==◌ has_prefix contains_byte join split lookup index_map decimal has_suffix trim_suffix
    decode_rune to_lower drop_while trim_func trim_space ◌>>=◌ pure raise errorf eof peek consume
    expect expect_eof scan skip_spaces until unquote quoted quoted_element operand_in_tree operand
    element elements all_elements bare_list list_operand digits_value arrow_at is_name_rune
    name_rune_at name_goes_on name_length bare_name name array_index_at array_index path_step
    path_steps json_path bare_condition lang_modifier any_or_all quant_modifier in_operation
    is_operation valued_operation operation_of operation leaf group_prefix_at run parse_logic_tree
    key_path parse_filter_key key_kind to_upper parse_column_filter parse_filter parse_group
    parse_members parse_condition placeholder add find_column escape quote_element pg_array_literal
    escape_quotes strip_braces quoted_parts convert_trimmed convert_to_postgres_array_or_json
    step_sql steps_sql field_sql text_search_sql bound_value operator_sql comparison_sql
    condition_sql where_conditions build_where_clause node_sql nodes_sql take_while le_bytes
    insert_key sorted get_value scan_int parse_int_param is_reserved_param collect_filters
    parse_query_params column_cast_expression returning_list selected_columns select_list
    build_select_query column_value_expression column_value column_values build_insert_query
    build_update_query build_delete_query to_valid_utf8 split_order split_order_param_string
    match_second similarity_at find_similarity cut_direction cut_nulls parse_order_part
    parse_order_parts parse_order_param order_clause order_clauses build_order_by_clause cut_equals
    is_valid_return is_valid_count apply_preference apply_directive apply_directives parse_prefer
    parse_headers wants_count_exact wants_count_estimated wants_count_planned wants_representation
    wants_headers_only format_int wrap64 range_end content_range table_key table_from_path
    trim_prefix counted run_query execute_query handle_get handle_post handle_patch handle_delete
    handle_method handle_request ◌+ℤ◌ quantifiable is_composite
patch_is_answered = refl

request_is_served_example :
    Answers (IsServedFrom server echo patch) (handle_request server echo patch)
request_is_served_example = request_is_served server echo patch

abbrev asked : StringMap (List Bytes)
asked = (codes "limit", codes "3" ∷ []) ∷ (codes "age", codes "gt.7" ∷ codes "lt.9" ∷ []) ∷ []

filters_are_collected_example :
    is_filter (codes "age") (codes "lt.9") (parse_query_params ascii_only asked).filters
    ≡ (not (is_reserved_param (codes "age")) && is_offered (codes "age") (codes "lt.9") asked)
filters_are_collected_example = filters_are_collected ascii_only (codes "age") (codes "lt.9") asked

writes_keep_filters_example :
    IsUpdate env people rename none by_age (update_sql, update_args)
    × IsFiltered env people
        (delete_head env people)
        []
        []
        by_age
        (delete_sql, value (text (codes "7")) ∷ [])
writes_keep_filters_example =
    writes_keep_filters env people rename by_age none update_sql delete_sql update_args
      (value (text (codes "7")) ∷ []) update_is_built delete_is_built

order_of_suffixes_example :
    (parse_order_part ascii_only (codes "age.nullslast.desc") ≡ record {
      column = codes "age";
      direction = codes "desc";
      nulls_position = codes "last";
      similarity = [];
    })
    × (parse_order_part ascii_only (codes "age.desc.nullslast") ≡ record {
      column = codes "age.desc";
      direction = codes "asc";
      nulls_position = codes "last";
      similarity = [];
    })
order_of_suffixes_example =
    order_of_suffixes ascii_only (codes "age") false true no_similarity no_similarity_behind
