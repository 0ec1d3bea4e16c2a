-- ===== src/Rest/Rpc.antt =====
-- pkg/rest/rpc.go: calls of PostgreSQL functions, from the path and the body to the SQL text.
-- Numbers stay the text of the body; their value as a float64, the conversions of strconv, fmt and
-- encoding/json, and the answers of PostgreSQL are parameters. The argument of a decoded body is
-- never a Go int, so the cases for that type are left out.
use pigo.Base.{
  ℕ, zero, suc, ◌+◌, Bool, true, false, not, ◌&&◌, ◌||◌, Option, none, some, List, [], ◌∷◌, ◌++◌,
  map, if◌then◌else◌, is_empty, length, any, drop, get_elem?, inl, inr, ◌⊎◌, ltb, leb,
}
use pigo.Base.Bytes.{Bytes, codes, ◌==◌, lookup, has_prefix, join, decimal, split}
use pigo.Base.Int.{ℤ, ltℤ}
use pigo.Base.Json.{Value, null, bool, number, text, array, object}
use pigo.Base.Maps.{StringMap}
use pigo.Rest.Args.{placeholder}
use pigo.Rest.Server.{trim_prefix}
pub mod Call
pub mod Arguments
pub mod Handler

pub record FunctionParam : Type 0 where
  pub name : Bytes
  pub data_type : Bytes
  pub default_value : Option Bytes
  pub mode : Bytes
  pub position : ℕ

pub record Function : Type 0 where
  pub schema : Bytes
  pub name : Bytes
  pub parameters : List FunctionParam
  pub return_type : Bytes
  pub is_setof : Bool
  pub is_aggregate : Bool

pub data RpcError : Type 0 where
  missing_parameter : Bytes → RpcError
  invalid_value : Bytes → RpcError
  invalid_oid : Bytes → RpcError
  query_failed : RpcError

-- what a parameter of type `any` holds: nil, a string, an []any of strings and others, or more
pub data Dynamic : Type 0 where
  nothing : Dynamic
  a_string : Bytes → Dynamic
  an_array : List (Option Bytes) → Dynamic
  something_else : Dynamic

-- an argument bound to a placeholder
pub data Bound (F : Type 0) : Type 0 where
  sql_null : Bound F
  integer : ℤ → Bound F
  float : F → Bound F
  boolean : Bool → Bound F
  string : Bytes → Bound F

pub record Conversions (F : Type 0) : Type 0 where
  pub float64 : Bytes → F
  pub int64 : F → ℤ
  pub parse_int : Bytes → Option ℤ
  pub parse_float : Bytes → Option F
  pub parse_bool : Bytes → Option Bool
  pub marshal : Value → Option Bytes
  pub sprint : Value → Bytes

-- strings.Fields of ASCII text, as the text of an oidvector is
unfoldable pub fields : Bytes → List Bytes
unfolding split
fields s = dropped (split 32 (map (λ c. if leb 9 c && leb c 13 then 32 else c) s))
  where
    dropped : List Bytes → List Bytes
    dropped [] = []
    dropped (p ∷ ps) = if is_empty p then dropped ps else p ∷ dropped ps

unfoldable pub arg_name : ℕ → Bytes
unfolding decimal
arg_name n = codes "arg" ++ decimal n

unfoldable pub mode_name : Option Bytes → Bytes
mode_name none = codes "IN"
mode_name (some m) =
    if m == codes "i"
    then codes "IN"
    else if m == codes "o"
    then codes "OUT"
    else if m == codes "b"
    then codes "INOUT"
    else if m == codes "v"
    then codes "VARIADIC"
    else codes "IN"

unfoldable pub names_from : ℕ → List (Option Bytes) → List Bytes
unfolding arg_name
names_from i [] = []
names_from i (none ∷ rest) = arg_name (i + 1) ∷ names_from (i + 1) rest
names_from i (some name ∷ rest) = name ∷ names_from (i + 1) rest

unfoldable pub parameter_at : List Bytes → List Bytes → List Bytes → ℕ → FunctionParam
unfolding arg_name
parameter_at names type_names modes i = record {
  name = elim (get_elem? names i) [
    | none ↦ arg_name (i + 1)
    | some name ↦ if is_empty name then arg_name (i + 1) else name
  ];
  data_type = elim (get_elem? type_names i) [ none ↦ codes "text" | some t ↦ t ];
  default_value = none;
  mode = elim (get_elem? modes i) [ none ↦ codes "IN" | some m ↦ m ];
  position = i + 1;
}

-- the loop over the numbers from i, `left` of them
unfoldable pub parameters_from : List Bytes → List Bytes → List Bytes → ℕ → ℕ → List FunctionParam
unfolding parameter_at
parameters_from names type_names modes i zero = []
parameters_from names type_names modes i (suc left) =
    parameter_at names type_names modes i ∷ parameters_from names type_names modes (i + 1) left

-- pg_proc's row for a function, as getFunction scans it
pub record ProcRow : Type 0 where
  pub func_name : Bytes
  pub schema : Bytes
  pub is_setof : Bool
  pub return_type : Bytes
  pub is_aggregate : Bool
  pub num_args : ℕ

module _ {F : Type 0} (cv : Conversions F) (type_map : List ℤ → Option (List (ℤ × Bytes))) where
  unfoldable pub parse_oids : List Bytes → RpcError ⊎ List ℤ
  parse_oids [] = inr []
  parse_oids (s ∷ rest) = elim (cv.parse_int s) [
    | none ↦ inl (invalid_oid s)
    | some oid ↦ elim (parse_oids rest) [ inl e ↦ inl e | inr oids ↦ inr (oid ∷ oids) ]
  ]

  -- PostgreSQL has one name for an OID.
  unfoldable pub type_name : List (ℤ × Bytes) → ℤ → Bytes
  type_name [] oid = codes "unknown"
  type_name ((o, name) ∷ rest) oid = if equals o oid then name else type_name rest oid
    where
      equals : ℤ → ℤ → Bool
      equals a b = not (ltℤ a b) && not (ltℤ b a)

  unfoldable pub type_names_of : Dynamic → RpcError ⊎ List Bytes
  unfolding fields parse_oids type_name
  type_names_of (a_string oid_vector) = elim (parse_oids (fields oid_vector)) [
    | inl e ↦ inl e
    | inr oids ↦ if is_empty oids then inr [] else elim (type_map oids) [
      | none ↦ inl query_failed
      | some found ↦ inr (map (type_name found) oids)
    ]
  ]
  type_names_of nothing = inr []
  type_names_of (an_array elements) = inr []
  type_names_of something_else = inr []

  unfoldable pub elements_of : Dynamic → List (Option Bytes)
  elements_of (an_array elements) = elements
  elements_of nothing = []
  elements_of (a_string s) = []
  elements_of something_else = []

  unfoldable pub parse_function_parameters :
      Dynamic → Dynamic → Dynamic → ℕ → RpcError ⊎ List FunctionParam
  unfolding type_names_of elements_of names_from mode_name parameters_from
  parse_function_parameters arg_names arg_types arg_modes num_args =
      elim (type_names_of arg_types) [
        | inl e ↦ inl e
        | inr type_names ↦ inr (
            parameters_from (names_from 0 (elements_of arg_names)) type_names
              (map mode_name (elements_of arg_modes)) 0 num_args)
      ]

  -- The catalog's names, types and modes are passed on as *[]string and *string, nil ones too.
  unfoldable pub get_function : Option ProcRow → RpcError ⊎ Function
  unfolding parse_function_parameters
  get_function none = inl query_failed
  get_function (some row) =
      let parameters : RpcError ⊎ List FunctionParam =
        if ltb 0 row.num_args
        then parse_function_parameters something_else something_else something_else row.num_args
        else inr [] in
      elim parameters [
        | inl e ↦ inl e
        | inr params ↦ inr (record {
          schema = row.schema;
          name = row.func_name;
          parameters = params;
          return_type = row.return_type;
          is_setof = row.is_setof;
          is_aggregate = row.is_aggregate;
        })
      ]
