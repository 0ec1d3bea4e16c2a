-- ===== src/Rest/Rpc/Handler.antt =====
-- pkg/rest/rpc.go: a request to /rpc/, from its path to the response.
-- The two ways encoding/json reads a body, the connections, the catalog and the query's rows are
-- parameters: one reading takes a whole text for an object, the other the first value of it.
use pigo.Base.Bytes.{trim_slashes}
use pigo.Base.{
  ℕ, Bool, not, Option, none, some, List, [], ◌∷◌, ◌++◌, if◌then◌else◌, is_empty, inl, inr, eqb,
}
use pigo.Base.Bytes.{Bytes, codes, ◌==◌, split}
use pigo.Base.Int.{ℤ, pos, negsuc}
use pigo.Base.Json.{Value}
use pigo.Base.Maps.{StringMap}
use pigo.Rest.Server.{trim_prefix}
use pigo.Rest.Rpc.{Function, Bound, Conversions, ProcRow, get_function}
use pigo.Rest.Rpc.Call.{build_function_call_query}

pub record RpcRequest : Type 0 where
  pub method : Bytes
  pub path : Bytes
  pub content_length : ℤ
  -- none where reading it fails
  pub body : Option Bytes

pub data RpcResponse (V : Type 0) : Type 0 where
  refused : ℕ → RpcResponse V
  -- httputil.JSON with 200
  single : V → RpcResponse V
  records : List (StringMap V) → RpcResponse V

pub record Backend (F V : Type 0) : Type 0 where
  pub conversions : Conversions F
  pub connects : Bool
  pub connects_again : Bool
  pub unmarshal : Bytes → Option (StringMap Value)
  pub decode_first : Option Bytes → Option (StringMap Value)
  pub type_map : List ℤ → Option (List (ℤ × Bytes))
  pub proc_row : Bytes → Bytes → Option ProcRow
  -- none where the query fails or its rows cannot be collected
  pub query : Bytes → List (Bound F) → Option (List (StringMap V))

-- the schema and the function that a path names
unfoldable pub function_of_path : List Bytes → Bytes × Bytes
function_of_path [] = (codes "public", [])
function_of_path (f ∷ []) = (codes "public", f)
function_of_path (s ∷ f ∷ rest) = (s, f)

-- `single_value` of a result with one row of one column
unfoldable pub single_value : {V : Type 0} → List (StringMap V) → Option V
single_value [] = none
single_value ([] ∷ rows) = none
single_value (((k, v) ∷ []) ∷ []) = some v
single_value (((k, v) ∷ []) ∷ r ∷ rows) = none
single_value (((k, v) ∷ c ∷ cs) ∷ rows) = none

module _ {F V : Type 0} (db : Backend F V) where
  -- the arguments in the body; a null body is the nil map, as good as an empty one
  unfoldable pub read_arguments : RpcRequest → Option (StringMap Value)
  read_arguments r =
      if is_probed r.content_length
      then elim r.body [
        | none ↦ none
        | some body ↦ if is_empty body then some [] else db.unmarshal body
      ]
      else db.decode_first r.body
    where
      is_probed : ℤ → Bool
      is_probed (pos n) = eqb n 0
      is_probed (negsuc n) = eqb n 0

  unfoldable pub execute_function_query : Bytes → List (Bound F) → Bool → RpcResponse V
  unfolding single_value
  execute_function_query sql args is_setof =
      if not db.connects_again then refused 500 else elim (db.query sql args) [
        | none ↦ refused 500
        | some rows ↦ elim (if is_setof then none else single_value rows) [
          | none ↦ records rows
          | some v ↦ single v
        ]
      ]

  unfoldable pub handle_function_call : RpcRequest → Function → RpcResponse V
  unfolding read_arguments execute_function_query build_function_call_query
  handle_function_call r function = elim (read_arguments r) [
    | none ↦ refused 400
    | some args ↦ elim (build_function_call_query db.conversions function args) [
      | inl e ↦ refused 400
      | inr q ↦ execute_function_query q.0 q.1 function.is_setof
    ]
  ]

  unfoldable pub handle_rpc : Bytes → RpcRequest → RpcResponse V
  unfolding trim_slashes function_of_path trim_prefix split get_function handle_function_call
  handle_rpc base_path r =
      let path = trim_prefix r.path (base_path ++ codes "/rpc/") in
      let target = function_of_path (split 47 (trim_slashes path)) in
      if not db.connects
      then refused 500
      else if is_empty path
      then refused 400
      else if not (r.method == codes "POST")
      then refused 405
      else elim (get_function db.conversions db.type_map (db.proc_row target.0 target.1)) [
        | inl e ↦ refused 404
        | inr function ↦ handle_function_call r function
      ]
