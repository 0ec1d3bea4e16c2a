-- ===== src/Pgx/OpenApi.antt =====
-- pkg/pgx/schema/openapi.go: the OpenAPI document of the cached tables, as the JSON that is encoded. A
-- map that the source builds is a JSON object with its members in one order; a nil contact is empty.
use pigo.Base.Bytes.{decimal}
use pigo.Base.Json.{number}
pub mod Operations
pub mod Document
pub mod References
use Prim.Native.String.{String}
use pigo.Base.{
  if◌then◌else◌, find, is_empty, Bool, true, false, ◌||◌, none, some, List, [], ◌∷◌, ◌++◌, map,
}
use pigo.Base.Bytes.{Bytes, codes, ◌==◌, has_prefix, trim_suffix}
use pigo.Base.Json.{member, nil, bool, Value, cons, text, Values, array, Members, end, object}
use pigo.Base.Maps.{StringMap, assign}
use pigo.Pgx.Cache.{full_name}
use pigo.Pgx.Schema.{Table, Column}

-- a map, a slice and a text as JSON
abbrev pub members_of : StringMap Value → Members
members_of [] = end
members_of ((k, v) ∷ m) = member k v (members_of m)

abbrev pub obj : StringMap Value → Value
obj m = object (members_of m)

abbrev pub values_list : List Value → Values
values_list [] = nil
values_list (v ∷ vs) = cons v (values_list vs)

abbrev pub arr : List Value → Value
arr vs = array (values_list vs)

-- a field that is a text, as those of map[string]string are
abbrev pub say : Bytes → Bytes → Bytes × Value
say k s = (k, text s)

pub record OpenApiInfo : Type 0 where
  pub title : Bytes
  pub description : Bytes
  pub version : Bytes
  pub contact_name : Bytes
  pub contact_email : Bytes
  pub contact_url : Bytes

pub record SecurityConfig : Type 0 where
  pub enable_jwt : Bool
  pub enable_basic : Bool

pub record OpenApiGenerator : Type 0 where
  pub base_path : Bytes
  pub info : OpenApiInfo
  pub security : SecurityConfig

unfoldable pub new_open_api_generator : Bytes → OpenApiInfo → OpenApiGenerator
unfolding trim_suffix
new_open_api_generator base_path info = record {
  base_path = trim_suffix base_path (codes "/");
  info = info;
  security = record { enable_jwt = true; enable_basic = true };
}

unfoldable pub with_security : SecurityConfig → OpenApiGenerator → OpenApiGenerator
with_security config g = record g { security = config }

-- strings.Contains
unfoldable pub contains_text : Bytes → Bytes → Bool
unfolding has_prefix
contains_text [] t = is_empty t
contains_text (c ∷ s) t = has_prefix (c ∷ s) t || contains_text s t

unfoldable pub get_column_schema : Column → Value
unfolding contains_text
get_column_schema col =
    let has : String → Bool = λ t. contains_text col.data_type (codes t) in
    if has "int"
    then obj (
        say (codes "type") (codes "integer")
        ∷ say (codes "format")
            (codes (if has "smallint" then "int16" else if has "bigint" then "int64" else "int32"))
        ∷ [])
    else if has "numeric" || has "decimal" || has "real" || has "double"
    then obj (
        say (codes "type") (codes "number")
        ∷ say (codes "format") (codes (if has "double" then "double" else "float"))
        ∷ [])
    else if has "bool"
    then obj (say (codes "type") (codes "boolean") ∷ [])
    else if has "date"
    then obj (say (codes "type") (codes "string") ∷ say (codes "format") (codes "date") ∷ [])
    else if has "timestamp"
    then obj (say (codes "type") (codes "string") ∷ say (codes "format") (codes "date-time") ∷ [])
    else if has "time"
    then obj (say (codes "type") (codes "string") ∷ say (codes "format") (codes "time") ∷ [])
    else if has "uuid"
    then obj (say (codes "type") (codes "string") ∷ say (codes "format") (codes "uuid") ∷ [])
    else if has "json" || has "jsonb"
    then obj (say (codes "type") (codes "object") ∷ (codes "additionalProperties", bool true) ∷ [])
    else if has "char" || has "text"
    then obj (say (codes "type") (codes "string") ∷ [])
    else obj (say (codes "type") (codes "string") ∷ [])

-- the one field of a parameter's schema
unfoldable pub parameter_type : Column → Bytes
unfolding contains_text
parameter_type col =
    let has : String → Bool = λ t. contains_text col.data_type (codes t) in
    if has "int" || has "numeric" || has "decimal" || has "real" || has "double"
    then codes "number"
    else if has "bool"
    then codes "boolean"
    else codes "string"

abbrev pub type_only : Bytes → Value
type_only t = obj (say (codes "type") t ∷ [])

unfoldable pub get_parameter_schema : Column → Value
get_parameter_schema col = type_only (parameter_type col)

-- the loop of buildTableSchema, with the properties and the required names so far
unfoldable pub collect_properties :
    List Column → StringMap Value → List Value → StringMap Value × List Value
unfolding get_column_schema assign
collect_properties [] properties required = (properties, required)
collect_properties (c ∷ cs) properties required =
    collect_properties cs (assign c.name (get_column_schema c) properties)
      (if c.is_nullable then required else required ++ text c.name ∷ [])

unfoldable pub build_table_schema : Table → Value
unfolding collect_properties
build_table_schema table =
    let (properties, required) = collect_properties table.columns [] [] in
    obj (
      say (codes "type") (codes "object")
      ∷ (codes "properties", obj properties)
      ∷ (if is_empty required then [] else (codes "required", arr required) ∷ []))

-- the column of a primary key, or the zero Column
unfoldable pub column_named : Bytes → List Column → Column
column_named key columns = elim (find (λ c. c.name == key) columns) [
  | some c ↦ c
  | none ↦ record {
    name = [];
    data_type = [];
    udt_schema = [];
    udt_name = [];
    type_kind = [];
    elem_kind = [];
    is_nullable = false;
    is_primary_key = false;
  }
]

unfoldable pub primary_key_parameter : List Column → Bytes → Value
unfolding column_named
primary_key_parameter columns key = obj (
    say (codes "name") key
    ∷ say (codes "in") (codes "path")
    ∷ (codes "required", bool true)
    ∷ say (codes "description") (codes "Primary key " ++ key)
    ∷ (codes "schema", get_parameter_schema (column_named key columns))
    ∷ [])

unfoldable pub build_primary_key_parameters : Table → Value
unfolding primary_key_parameter
build_primary_key_parameters table =
    arr (map (primary_key_parameter table.columns) table.primary_keys)

abbrev pub query_parameter : Bytes → Bytes → Value → Value
query_parameter name description schema = obj (
    say (codes "name") name
    ∷ say (codes "in") (codes "query")
    ∷ say (codes "description") description
    ∷ (codes "schema", schema)
    ∷ [])

unfoldable pub column_parameter : Column → Value
column_parameter c = query_parameter c.name (codes "Filter by " ++ c.name) (get_parameter_schema c)

unfoldable pub build_query_parameters : Table → Value
unfolding column_parameter
build_query_parameters table = arr (
    query_parameter (codes "limit") (codes "Limit the number of returned records")
      (type_only (codes "integer"))
    ∷ query_parameter (codes "offset") (codes "Offset for pagination") (type_only (codes "integer"))
    ∷ query_parameter (codes "order") (codes "Order by column(s)") (type_only (codes "string"))
    ∷ map column_parameter table.columns)
