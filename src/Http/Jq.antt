-- ===== src/Http/Jq.antt =====
-- pkg/util/jq.go: the value at a dotted path, and WithOIDCAuthz of pkg/httputil/middleware/authz.go,
-- which takes a user's role from there. strconv.Atoi is a parameter. handleWildcard joins the keys
-- that are left and Jq splits them again: no key has a dot, so the keys go on as they are.
use pigo.Base.{
  ℕ, zero, suc, Bool, true, false, not, Option, none, some, List, [], ◌∷◌, if◌then◌else◌, is_empty,
  ◌||◌, eqb,
}
use pigo.Base.Bytes.{Bytes, codes, ◌==◌, split, contains_byte}
use pigo.Base.Int.{ℤ, pos, negsuc}
use pigo.Base.Json.{
  Value, Values, Members, null, bool, number, text, array, object, nil, cons, end, member,
}
use pigo.Base.Maps.{StringMap}
use pigo.Http.Router.{cut}
use pigo.Http.Role.{AuthzResponse, AuthzFunc}

unfoldable pub path_keys : Bytes → List Bytes
unfolding split
path_keys path = filled (split 46 (without_dot path))
  where
    without_dot : Bytes → Bytes
    without_dot [] = []
    without_dot (c ∷ s) = if eqb c 46 then s else c ∷ s

    filled : List Bytes → List Bytes
    filled [] = []
    filled (k ∷ ks) = let rest = filled ks in if is_empty k then rest else k ∷ rest

-- the value under a key of a map
unfoldable pub member_of : Bytes → Members → Option Value
member_of k end = none
member_of k (member j v m) = if j == k then some v else member_of k m

-- the text before the first '[', and the text from it to the first ']', where that stands behind it
unfoldable pub split_key_and_index : Bytes → Option (Bytes × Bytes)
unfolding cut contains_byte
split_key_and_index key = elim (cut 91 key) [
  | none ↦ none
  | some p ↦
      if contains_byte 93 p.0
      then none
      else elim (cut 93 p.1) [ none ↦ none | some q ↦ some (p.0, q.0) ]
]

unfoldable pub value_at : ℕ → Values → Option Value
value_at i nil = none
value_at zero (cons v vs) = some v
value_at (suc i) (cons v vs) = value_at i vs

unfoldable pub append_values : Values → Values → Values
append_values nil ws = ws
append_values (cons v vs) ws = cons v (append_values vs ws)

-- the values found, with arrays among them laid out, before those that follow
unfoldable pub add_result : Option Value → Values → Values
unfolding append_values
add_result none rest = rest
add_result (some null) rest = cons null rest
add_result (some (bool b)) rest = cons (bool b) rest
add_result (some (number n)) rest = cons (number n) rest
add_result (some (text s)) rest = cons (text s) rest
add_result (some (array vs)) rest = append_values vs rest
add_result (some (object ms)) rest = cons (object ms) rest

-- The loop of handleWildcard over the items, with Jq on the remaining keys: the items that are maps.
unfoldable pub collect : (Members → Option Value) → Values → Values
unfolding add_result
collect next nil = nil
collect next (cons (object ms) vs) = add_result (next ms) (collect next vs)
collect next (cons null vs) = collect next vs
collect next (cons (bool b) vs) = collect next vs
collect next (cons (number n) vs) = collect next vs
collect next (cons (text s) vs) = collect next vs
collect next (cons (array ws) vs) = collect next vs

unfoldable pub found_values : Values → Option Value
found_values nil = none
found_values (cons v vs) = some (array (cons v vs))

unfoldable pub array_under : Bytes → Members → Option Values
unfolding member_of
array_under k ms = elim (member_of k ms) [ none ↦ none | some v ↦ items v ]
  where
    items : Value → Option Values
    items (array vs) = some vs
    items null = none
    items (bool b) = none
    items (number n) = none
    items (text s) = none
    items (object m) = none

module _ (atoi : Bytes → Option ℤ) where
  unfoldable pub index_of : Bytes → Option ℕ
  index_of s = elim (atoi s) [ none ↦ none | some i ↦ natural i ]
    where
      natural : ℤ → Option ℕ
      natural (pos n) = some n
      natural (negsuc n) = none

  -- the loop over the keys; an error is none
  unfoldable pub jq_keys : List Bytes → Value → Option Value
  unfolding index_of contains_byte member_of split_key_and_index array_under value_at collect
      found_values
  jq_keys [] v = some v
  jq_keys (key ∷ keys) v = go v (jq_keys keys) (is_empty keys)
    where
      go : Value → (Value → Option Value) → Bool → Option Value
      go (object ms) next is_last =
          if not (contains_byte 91 key)
          then elim (member_of key ms) [ none ↦ none | some w ↦ next w ]
          else elim (split_key_and_index key) [
            | none ↦ none
            | some p ↦ elim (array_under p.0 ms) [
              | none ↦ none
              | some vs ↦
                  if p.1 == codes "*" || is_empty p.1
                  then (if is_last
                      then some (array vs)
                      else found_values (collect (λ m. next (object m)) vs))
                  else elim (index_of p.1) [
                    | none ↦ none
                    | some i ↦ elim (value_at i vs) [ none ↦ none | some w ↦ next w ]
                  ]
            ]
          ]
      go null next is_last = none
      go (bool b) next is_last = none
      go (number n) next is_last = none
      go (text s) next is_last = none
      go (array vs) next is_last = none

  unfoldable pub jq : Members → Bytes → Option Value
  unfolding path_keys jq_keys
  jq input path = if is_empty path then none else jq_keys (path_keys path) (object input)

  unfoldable pub with_oidc_authz : Bytes → AuthzFunc
  unfolding jq
  with_oidc_authz role_claim_key ctx = elim ctx.oidc_user [
    | none ↦ some (record { role = []; allowed = false })
    | some user ↦ elim (jq (members_of user) role_claim_key) [
      | none ↦ some (record { role = []; allowed = false })
      | some v ↦ some (response v)
    ]
  ]
    where
      members_of : StringMap Value → Members
      members_of [] = end
      members_of ((k, v) ∷ m) = member k v (members_of m)

      response : Value → AuthzResponse
      response (text s) = record { role = s; allowed = true }
      response null = record { role = []; allowed = false }
      response (bool b) = record { role = []; allowed = false }
      response (number n) = record { role = []; allowed = false }
      response (array vs) = record { role = []; allowed = false }
      response (object ms) = record { role = []; allowed = false }
