-- ===== src/Rest/Rpc/Call.antt =====
-- pkg/rest/rpc.go: the SQL call of a function with the arguments of the body, and its answer.
use pigo.Base.{
  ℕ, ◌+◌, Bool, ◌||◌, Option, none, some, List, [], ◌∷◌, ◌++◌, if◌then◌else◌, length, any, inl, inr,
  ◌⊎◌,
}
use pigo.Base.Bytes.{Bytes, codes, ◌==◌, lookup, join}
use pigo.Base.Json.{Value, null, bool, number, text, array, object}
use pigo.Base.Maps.{StringMap}
use pigo.Rest.Args.{placeholder}
use pigo.Rest.Rpc.{
  FunctionParam, Function, RpcError, missing_parameter, invalid_value, Bound, sql_null, integer,
  float, boolean, string, Conversions, arg_name,
}

map_bound : {A F : Type 0} → (A → Bound F) → Option A → Option (Bound F)
map_bound f none = none
map_bound f (some a) = some (f a)

is_one_of : List Bytes → Bytes → Bool
is_one_of names t = any (λ n. n == t) names

unfoldable pub input_params : List FunctionParam → List FunctionParam
input_params [] = []
input_params (p ∷ ps) =
    let rest = input_params ps in
    if (p.mode == codes "IN") || (p.mode == codes "INOUT") then p ∷ rest else rest

-- the argument by name, or by position
unfoldable pub argument : ℕ → FunctionParam → StringMap Value → Option Value
unfolding lookup arg_name
argument i param args = elim (lookup param.name args) [
  | some v ↦ some v
  | none ↦ lookup (arg_name (i + 1)) args
]

unfoldable pub call_sql : Function → List Bytes → Bytes
unfolding join
call_sql function placeholders =
    if function.is_setof
    then codes "SELECT * FROM \""
      ++ function.schema
      ++ codes "\".\""
      ++ function.name
      ++ codes "\"("
      ++ join (codes ", ") placeholders
      ++ codes ")"
    else codes "SELECT \""
      ++ function.schema
      ++ codes "\".\""
      ++ function.name
      ++ codes "\"("
      ++ join (codes ", ") placeholders
      ++ codes ") as result"

module _ {F : Type 0} (cv : Conversions F) where
  unfoldable pub to_integer : Value → Option (Bound F)
  unfolding map_bound
  to_integer (number n) = some (integer (cv.int64 (cv.float64 n)))
  to_integer (text s) = map_bound integer (cv.parse_int s)
  to_integer null = none
  to_integer (bool b) = none
  to_integer (array vs) = none
  to_integer (object ms) = none

  unfoldable pub to_numeric : Value → Option (Bound F)
  unfolding map_bound
  to_numeric (number n) = some (float (cv.float64 n))
  to_numeric (text s) = map_bound float (cv.parse_float s)
  to_numeric null = none
  to_numeric (bool b) = none
  to_numeric (array vs) = none
  to_numeric (object ms) = none

  unfoldable pub to_boolean : Value → Option (Bound F)
  unfolding map_bound
  to_boolean (bool b) = some (boolean b)
  to_boolean (text s) = map_bound boolean (cv.parse_bool s)
  to_boolean null = none
  to_boolean (number n) = none
  to_boolean (array vs) = none
  to_boolean (object ms) = none

  unfoldable pub to_json : Value → Option (Bound F)
  unfolding map_bound
  to_json (text s) = some (string s)
  to_json null = map_bound string (cv.marshal null)
  to_json (bool b) = map_bound string (cv.marshal (bool b))
  to_json (number n) = map_bound string (cv.marshal (number n))
  to_json (array vs) = map_bound string (cv.marshal (array vs))
  to_json (object ms) = map_bound string (cv.marshal (object ms))

  unfoldable pub convert_typed : Value → Bytes → Option (Bound F)
  unfolding is_one_of to_integer to_numeric to_boolean to_json
  convert_typed value data_type =
      if is_one_of
        (codes "integer" ∷ codes "int4" ∷ codes "int8" ∷ codes "bigint" ∷ codes "smallint" ∷ [])
        data_type
      then to_integer value
      else if is_one_of
          (codes "numeric"
            ∷ codes "decimal"
            ∷ codes "real"
            ∷ codes "double precision"
            ∷ codes "float4"
            ∷ codes "float8"
            ∷ [])
          data_type
      then to_numeric value
      else if is_one_of (codes "boolean" ∷ codes "bool" ∷ []) data_type
      then to_boolean value
      else if is_one_of (codes "json" ∷ codes "jsonb" ∷ []) data_type
      then to_json value
      else if data_type == codes "uuid"
      then some (string (codes "\"" ++ cv.sprint value ++ codes "\"::TEXT"))
      else some (string (cv.sprint value))

  unfoldable pub convert_argument_type : Value → Bytes → Option (Bound F)
  unfolding convert_typed
  convert_argument_type null data_type = some sql_null
  convert_argument_type (bool b) data_type = convert_typed (bool b) data_type
  convert_argument_type (number n) data_type = convert_typed (number n) data_type
  convert_argument_type (text s) data_type = convert_typed (text s) data_type
  convert_argument_type (array vs) data_type = convert_typed (array vs) data_type
  convert_argument_type (object ms) data_type = convert_typed (object ms) data_type

  -- the loop over the parameters from i, with what it has bound and written so far
  unfoldable pub bind_arguments :
      ℕ
      → List FunctionParam
      → StringMap Value
      → List (Bound F)
      → List Bytes
      → RpcError ⊎ (List (Bound F) × List Bytes)
  unfolding argument convert_argument_type placeholder
  bind_arguments i [] args bound placeholders = inr (bound, placeholders)
  bind_arguments i (param ∷ params) args bound placeholders = elim (argument i param args) [
    | none ↦ elim param.default_value [
      | some d ↦ bind_arguments (i + 1) params args bound placeholders
      | none ↦ inl (missing_parameter param.name)
    ]
    | some v ↦ elim (convert_argument_type v param.data_type) [
      | none ↦ inl (invalid_value param.name)
      | some b ↦
          bind_arguments (i + 1) params args (bound ++ b ∷ [])
            (placeholders ++ placeholder (length (bound ++ b ∷ [])) ∷ [])
    ]
  ]

  unfoldable pub build_function_call_query :
      Function → StringMap Value → RpcError ⊎ (Bytes × List (Bound F))
  unfolding input_params bind_arguments call_sql
  build_function_call_query function args =
      elim (bind_arguments 0 (input_params function.parameters) args [] []) [
        | inl e ↦ inl e
        | inr p ↦ inr (call_sql function p.1, p.0)
      ]
