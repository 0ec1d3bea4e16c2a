-- ===== src/Rest/Examples/Calls.antt =====
-- Tests and witnesses of pkg/rest/rpc.go.
use pigo.Base.{ℕ, false, none, [], ◌∷◌, ◌-◌}
use pigo.Base.Bytes.{Bytes, codes}
use pigo.Base.Int.{pos}
use pigo.Base.Json.{Value, number}
use pigo.Base.Maps.{StringMap}
use pigo.Rest.Rpc.{FunctionParam, Function, Conversions, ProcRow}

-- numbers are their first digit
abbrev first_digit : Conversions ℕ
first_digit = record {
  float64 = λ s. elim s [ [] ↦ 0 | c ∷ t ↦ c - 48 ];
  int64 = pos;
  parse_int = λ s. none;
  parse_float = λ s. none;
  parse_bool = λ s. none;
  marshal = λ v. none;
  sprint = λ v. [];
}

abbrev add_param : Bytes → ℕ → FunctionParam
add_param name i = record {
  name = name;
  data_type = codes "integer";
  default_value = none;
  mode = codes "IN";
  position = i;
}

abbrev add_function : Function
add_function = record {
  schema = codes "public";
  name = codes "add";
  parameters = add_param (codes "a") 1 ∷ add_param (codes "b") 2 ∷ [];
  return_type = codes "int4";
  is_setof = false;
  is_aggregate = false;
}

abbrev two_numbers : StringMap Value
two_numbers = (codes "b", number (codes "2")) ∷ (codes "a", number (codes "1")) ∷ []

abbrev add_call : Bytes
add_call = codes "SELECT \"public\".\"add\"($1, $2) as result"

abbrev add_row : ProcRow
add_row = record {
  func_name = codes "add";
  schema = codes "public";
  is_setof = false;
  return_type = codes "int4";
  is_aggregate = false;
  num_args = 2;
}
