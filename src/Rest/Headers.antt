-- ===== src/Rest/Headers.antt =====
-- pkg/rest/http_headers.go: the Prefer header. The request's headers enter as the value of Prefer,
-- "" where there is none.
pub mod Valid
use pigo.Base.{
  ℕ, Bool, true, false, not, ◌&&◌, Option, none, some, List, [], ◌∷◌, any, eqb, length, drop,
  is_empty, take_while, if◌then◌else◌,
}
use pigo.Base.Bytes.{Bytes, codes, ◌==◌, split, contains_byte}
use pigo.Base.Utf8.{Unicode, trim_space, trim_func, to_lower}

-- `return` is a field named `returns` here
pub record Prefer : Type 0 where
  pub returns : Bytes
  pub count : Bytes

-- a pointer in the source: nil without the header
pub record Headers : Type 0 where
  pub prefer : Option Prefer

-- strings.Cut by "=", with its `found`
unfoldable pub cut_equals : Bytes → Option (Bytes × Bytes)
cut_equals s =
    let key = take_while (λ c. not (eqb c b'=')) s in
    let behind = drop (length key) s in if is_empty behind then none else some (key, drop 1 behind)

module _ (u : Unicode) where
  unfoldable pub is_valid_return : Bytes → Bool
  is_valid_return s =
      any (λ w. w == to_lower u s)
        (codes "minimal" ∷ codes "representation" ∷ codes "headers-only" ∷ [])

  unfoldable pub is_valid_count : Bytes → Bool
  is_valid_count s =
      any (λ w. w == to_lower u s) (codes "exact" ∷ codes "planned" ∷ codes "estimated" ∷ [])

  -- the callback of parsePrefer on one pair
  unfoldable pub apply_preference : Bytes → Bytes → Prefer → Prefer
  apply_preference key value p =
      if key == codes "return"
      then (if is_valid_return value then record p { returns = value } else p)
      else if key == codes "count"
      then (if is_valid_count value then record p { count = value } else p)
      else p

  -- parseKeyValPairs on one directive
  unfoldable pub apply_directive : Bytes → Prefer → Prefer
  apply_directive pref p = elim (cut_equals (trim_space u pref)) [
    | none ↦ p
    | some (key, value) ↦
        apply_preference (trim_space u (to_lower u key))
          (trim_func (λ c. eqb c b'"') (trim_space u value)) p
  ]

  -- the loop of parseKeyValPairs: directives apply from left to right
  unfoldable pub apply_directives : List Bytes → Prefer → Prefer
  apply_directives [] p = p
  apply_directives (pref ∷ prefs) p = apply_directives prefs (apply_directive pref p)

  unfoldable pub parse_prefer : Bytes → Option Prefer
  parse_prefer header =
      if is_empty header
      then none
      else some
          (apply_directives (split b',' header) (record { returns = codes "minimal"; count = [] }))

  unfoldable pub parse_headers : Bytes → Headers
  parse_headers header = record { prefer = parse_prefer header }

  unfoldable pub wants_count_exact : Option Prefer → Bool
  wants_count_exact none = false
  wants_count_exact (some p) = to_lower u p.count == codes "exact"

  unfoldable pub wants_count_estimated : Option Prefer → Bool
  wants_count_estimated none = false
  wants_count_estimated (some p) = to_lower u p.count == codes "estimated"

  unfoldable pub wants_count_planned : Option Prefer → Bool
  wants_count_planned none = false
  wants_count_planned (some p) = to_lower u p.count == codes "planned"

unfoldable pub wants_representation : Option Prefer → Bool
wants_representation none = false
wants_representation (some p) = p.returns == codes "representation"

unfoldable pub wants_headers_only : Option Prefer → Bool
wants_headers_only none = false
wants_headers_only (some p) = p.returns == codes "headers-only"
