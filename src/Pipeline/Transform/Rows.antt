-- ===== src/Pipeline/Transform/Rows.antt =====
-- pkg/pipeline/transform: the rows that extract and replace make.
use pigo.Base.{
  ◌≡◌, refl, false, ◌&&◌, Option, none, some, List, [], ◌∷◌, any, arith, if◌then◌else◌, is_some,
  Bool-cases, ◌||◌, inl, inr,
}
use pigo.Base.Bytes.{Bytes, ◌==◌, ==_refl, ==_sound, lookup}
use pigo.Base.Json.{Value}
use pigo.Base.Maps.{StringMap, assign, lookup-assign_self, lookup-assign}
use pigo.Pipeline.Transform.Extract.{extract_fields}
use pigo.Pipeline.Transform.Replace.{replaced, replace_keys}

lookup-extract :
    (fields : List Bytes) (old new : StringMap Value) (k : Bytes)
    → lookup k (extract_fields fields old new)
      ≡ (if any (λ f. f == k) fields && is_some (lookup k old) then lookup k old else lookup k new)
unfolding extract_fields
lookup-extract [] old new k = refl
lookup-extract (f ∷ fields) old new k =
    go (lookup f old) refl (lookup-extract fields old new k)
      (λ v. lookup-extract fields old (assign f v new) k)
  where
    go :
        (o : Option Value)
        → lookup f old ≡ o
        → lookup k (extract_fields fields old new) ≡ (
            if any (λ g. g == k) fields && is_some (lookup k old)
            then lookup k old
            else lookup k new)
        → ((v : Value)
            → lookup k (extract_fields fields old (assign f v new)) ≡ (
                if any (λ g. g == k) fields && is_some (lookup k old)
                then lookup k old
                else lookup k (assign f v new)))
        → lookup k (elim o as (λ _. StringMap Value) [
          | none ↦ extract_fields fields old new
          | some v ↦ extract_fields fields old (assign f v new)
        ])
          ≡ (if (f == k || any (λ g. g == k) fields) && is_some (lookup k old)
              then lookup k old
              else lookup k new)
    go none e p q = ground (arith, e, p, ==_sound f k)
    go (some v) e p q = ground (arith, e, q v, ==_sound f k, lookup-assign f k v new)

-- A row that is extracted has for every column what the row had, where the column is one of the
-- configured fields, and nothing otherwise.
pub extracted_row :
    (fields : List Bytes) (old : StringMap Value) (k : Bytes)
    → lookup k (extract_fields fields old [])
      ≡ (if any (λ f. f == k) fields then lookup k old else none)
unfolding lookup
extracted_row fields old k = ground (arith, lookup-extract fields old [] k)

-- Where two columns of a row come to have one name, the value that is left depends on the order in
-- which the map is walked.
pub collision_depends_on_walk :
    (a b : Bytes) (v w : Value)
    → (a == b) ≡ false
    → let names : StringMap Bytes = (a, b) ∷ [] in
      (lookup b (replace_keys names ((a, v) ∷ (b, w) ∷ []) []) ≡ some w)
      × (lookup b (replace_keys names ((b, w) ∷ (a, v) ∷ []) []) ≡ some v)
unfolding replace_keys replaced lookup assign
collision_depends_on_walk a b v w h =
    (ground (arith, h, ==_refl a, ==_refl b), ground (arith, h, ==_refl a, ==_refl b))

-- no later entry takes the name that a column gets
abbrev pub IsFree : StringMap Bytes → Bytes → StringMap Value → Type 0
IsFree names k [] = Unit {0}
IsFree names k ((j, v) ∷ m) = ((replaced names j == replaced names k) ≡ false) × IsFree names k m

abbrev pub IsInjective : StringMap Bytes → StringMap Value → Type 0
IsInjective names [] = Unit {0}
IsInjective names ((j, v) ∷ m) = IsFree names j m × IsInjective names m

lookup-replace_free :
    (names : StringMap Bytes) (m new : StringMap Value) (k : Bytes)
    → IsFree names k m
    → lookup (replaced names k) (replace_keys names m new) ≡ lookup (replaced names k) new
unfolding replace_keys
lookup-replace_free names [] new k h = refl
lookup-replace_free names ((j, v) ∷ m) new k h = ground (
  arith,
  h.0,
  lookup-replace_free names m (assign (replaced names j) v new) k h.1,
  lookup-assign (replaced names j) (replaced names k) v new,
)

lookup-replace :
    (names : StringMap Bytes) (m new : StringMap Value) (k : Bytes) (v : Value)
    → IsInjective names m
    → lookup k m ≡ some v
    → lookup (replaced names k) (replace_keys names m new) ≡ some v
unfolding replace_keys lookup
lookup-replace names [] new k v h e = cc
lookup-replace names ((j, w) ∷ m) new k v h e = elim (Bool-cases (j == k)) [
  | inl same ↦
      let first : w ≡ v = ground (arith, same, e) in
      let there = lookup-replace_free names m (assign (replaced names j) w new) j h.0 in
      ground (arith, same, first, there, ==_sound j k, lookup-assign_self (replaced names j) w new)
  | inr differs ↦
      lookup-replace names m (assign (replaced names j) w new) k v h.1 (ground (arith, differs, e))
]

-- Where no two columns of a row come to have one name, every column's value is found under the new
-- name, whatever the order of the walk.
pub renamed_row :
    (names : StringMap Bytes) (m : StringMap Value) (k : Bytes) (v : Value)
    → IsInjective names m
    → lookup k m ≡ some v
    → lookup (replaced names k) (replace_keys names m []) ≡ some v
renamed_row names m k v h e = lookup-replace names m [] k v h e
