-- ===== src/Rest/Rpc/Arguments.antt =====
-- pkg/rest/rpc.go: the arguments and the placeholders of a function call.
use pigo.Base.{
  ℕ, zero, suc, ◌≡◌, refl, ap, ◌∙◌, Option, none, some, List, [], ◌∷◌, ◌++◌, arith, inl, inr,
  Bool-cases, ltb,
}
use pigo.Base.Bytes.{Bytes, codes, lookup, ◌==◌, decimal}
use pigo.Base.Json.{Value}
use pigo.Base.Maps.{StringMap}
use pigo.Rest.Args.{placeholder}
use pigo.Rest.Rpc.{
  Function, missing_parameter, Conversions, ProcRow, arg_name, get_function,
  parse_function_parameters, parameters_from, parameter_at, ℤ, type_names_of, elements_of,
  names_from,
}
use pigo.Rest.Rpc.Call.{bind_arguments, build_function_call_query, input_params, argument}

-- $1, $2, … of a count
unfoldable pub numbered : ℕ → List Bytes
numbered zero = []
numbered (suc n) = numbered n ++ placeholder (suc n) ∷ []

module _ {F : Type 0} (cv : Conversions F) where
  -- the names, types and modes of the catalog never arrive
  get_function-parameters :
      (type_map : List ℤ → Option (List (ℤ × Bytes))) (row : ProcRow) (function : Function)
      → get_function cv type_map (some row) ≡ inr function
      → function.parameters ≡ parameters_from [] [] [] 0 row.num_args
  unfolding get_function parse_function_parameters type_names_of elements_of names_from
      parameters_from
  get_function-parameters type_map row function h = elim (Bool-cases (ltb 0 row.num_args)) [
    | inl e ↦ ground (arith, rw (get_function, e) at h)
    | inr e ↦ ground (arith, e, rw (get_function, e) at h)
  ]

  first_is_missing :
      (n : ℕ) (args : StringMap Value)
      → lookup (codes "arg1") args ≡ none
      → bind_arguments cv 0 (input_params (parameters_from [] [] [] 0 (suc n))) args [] []
        ≡ inl (missing_parameter (codes "arg1"))
  unfolding bind_arguments input_params parameters_from parameter_at argument arg_name ◌==◌ decimal
  first_is_missing n args h =
      let none_given : argument 0 (parameter_at [] [] [] 0) args ≡ none =
        rw (argument, h, h) refl in
      rw (bind_arguments, none_given) refl

  -- A function read from the catalog is called with no argument under "arg1": then the call is
  -- refused for the lack of arg1, whatever the catalog calls its first parameter.
  pub named_arguments_are_refused :
      (type_map : List ℤ → Option (List (ℤ × Bytes))) (row : ProcRow) (n : ℕ) (function : Function)
      (args : StringMap Value)
      → row.num_args ≡ suc n
      → get_function cv type_map (some row) ≡ inr function
      → lookup (codes "arg1") args ≡ none
      → build_function_call_query cv function args ≡ inl (missing_parameter (codes "arg1"))
  unfolding build_function_call_query
  named_arguments_are_refused type_map row n function args count h none_given =
      let params : function.parameters ≡ parameters_from [] [] [] 0 (suc n) =
        get_function-parameters type_map row function h ∙ ap (parameters_from [] [] [] 0) count in
      rw (build_function_call_query, params, first_is_missing n args none_given) refl
