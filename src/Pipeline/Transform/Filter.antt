-- ===== src/Pipeline/Transform/Filter.antt =====
-- pkg/pipeline/transform/filter.go
use pigo.Base.{
  Bool, true, false, not, ◌&&◌, ◌||◌, List, [], ◌∷◌, ◌++◌, all, any, is_empty, if◌then◌else◌,
}
use pigo.Base.Bytes.{Bytes, codes, ◌==◌, split, contains_byte}
use pigo.Pipeline.Cdc.{Event, Source}
use pigo.Pipeline.Transform.{
  Func, Outcome, passed, skipped, failed, Patterns, invalid_filter, no_schema_or_table,
  no_operation,
}

pub record FilterConfig : Type 0 where
  pub table_pattern : Bytes
  pub tables : List Bytes
  pub exclude_tables : List Bytes
  pub operations : List Bytes

abbrev pub is_valid_operation : Bytes → Bool
is_valid_operation op = op == codes "c" || op == codes "u" || op == codes "d" || op == codes "r"

-- FilterConfig.Validate, true where there is no error
unfoldable pub validate_filter : Patterns → FilterConfig → Bool
validate_filter pats c =
    not (
      is_empty c.tables
      && is_empty c.exclude_tables
      && is_empty c.table_pattern
      && is_empty c.operations)
    && (is_empty c.table_pattern || pats.compiles c.table_pattern)
    && all is_valid_operation c.operations

pub record TableRef : Type 0 where
  pub schema : Bytes
  pub table : Bytes
  pub is_glob : Bool

abbrev pub has_star : Bytes → Bool
has_star s = contains_byte b'*' s

abbrev pub ref_of_parts : Bytes → List Bytes → TableRef
ref_of_parts ref (schema ∷ table ∷ []) = record {
  schema = schema;
  table = table;
  is_glob = has_star schema || has_star table;
}
ref_of_parts ref _ = record { schema = []; table = ref; is_glob = has_star ref }

unfoldable pub parse_table_ref : Bytes → TableRef
parse_table_ref ref =
    if ref == codes "*.*"
    then record { schema = codes "*"; table = codes "*"; is_glob = true }
    else ref_of_parts ref (split b'.' ref)

unfoldable pub matches_table_ref : Patterns → Source → TableRef → Bool
matches_table_ref pats s ref =
    if ref.is_glob
    then (if ref.schema == codes "*" && ref.table == codes "*"
        then true
        else if not (ref.schema == codes "*") && ref.table == codes "*"
        then pats.glob ref.schema s.schema
        else if ref.schema == codes "*" && not (ref.table == codes "*")
        then pats.glob ref.table s.table
        else pats.glob ref.schema s.schema && pats.glob ref.table s.table)
    else if not (is_empty ref.schema) && not (ref.schema == s.schema)
    then false
    else ref.table == s.table

unfoldable pub matches_pattern : Patterns → Bytes → Source → Bool
matches_pattern pats pattern s =
    pats.matches pattern (s.schema ++ codes "." ++ s.table) || pats.matches pattern s.table

-- the function behind a valid configuration
unfoldable pub filter_event : Patterns → FilterConfig → Event → Outcome
filter_event pats c e =
    let s = e.payload.source in
    let op = e.payload.op in
    if is_empty s.schema || is_empty s.table
    then failed no_schema_or_table
    else if not (is_empty c.operations) && is_empty op
    then failed no_operation
    else if not (is_empty c.operations) && not (any (λ o. o == op) c.operations)
    then skipped
    else if any (λ t. matches_table_ref pats s (parse_table_ref t)) c.exclude_tables
    then skipped
    else if not (is_empty c.tables)
        && not (any (λ t. matches_table_ref pats s (parse_table_ref t)) c.tables)
    then skipped
    else if not (is_empty c.table_pattern) && not (matches_pattern pats c.table_pattern s)
    then skipped
    else passed e

unfoldable pub filter : Patterns → FilterConfig → Func
filter pats c e h =
    if validate_filter pats c then (filter_event pats c e, h) else (failed invalid_filter, h)
