-- ===== src/Base/Maps.antt =====
-- Maps with string keys as association lists. Go does not order a map: the list is one order in
-- which it may be walked, and a write of a new key goes to its end.
use pigo.Base.{
  Bool, false, Option, none, some, List, [], ◌∷◌, ◌≡◌, refl, arith, if◌then◌else◌, is_some,
  Bool-cases, inl, inr, ◌∙◌,
}
use mathlib.Core.Path.{subst, ap}
use pigo.Base.Bytes.{Bytes, ◌==◌, ==_refl, ==_sound, lookup}

abbrev pub StringMap {ℓ} : Type ℓ → Type ℓ
StringMap V = List (Bytes × V)

pub ==_comm : (j k : Bytes) → (j == k) ≡ false → (k == j) ≡ false
==_comm j k h = ground (arith, h, ==_sound k j, ==_refl j)

module _ {ℓ} {V : Type ℓ} where
  -- m[k] = v
  unfoldable pub assign : Bytes → V → StringMap V → StringMap V
  assign k v [] = (k, v) ∷ []
  assign k v ((j, w) ∷ m) = if j == k then (j, v) ∷ m else (j, w) ∷ assign k v m

  -- delete(m, k)
  unfoldable pub remove : Bytes → StringMap V → StringMap V
  remove k [] = []
  remove k ((j, w) ∷ m) = if j == k then m else (j, w) ∷ remove k m

  abbrev pub has_key : Bytes → StringMap V → Bool
  has_key k m = is_some (lookup k m)

  pub lookup-assign_self : (k : Bytes) (v : V) (m : StringMap V) → lookup k (assign k v m) ≡ some v
  unfolding lookup assign
  lookup-assign_self k v [] = ground (arith, ==_refl k)
  lookup-assign_self k v ((j, w) ∷ m) = ground (arith, lookup-assign_self k v m)

  pub lookup-assign_ne :
      (k l : Bytes) (v : V) (m : StringMap V)
      → (k == l) ≡ false
      → lookup l (assign k v m) ≡ lookup l m
  unfolding lookup assign
  lookup-assign_ne k l v [] h = ground (arith, h)
  lookup-assign_ne k l v ((j, w) ∷ m) h =
      ground (arith, h, lookup-assign_ne k l v m h, ==_sound j k)

  pub lookup-assign :
      (k l : Bytes) (v : V) (m : StringMap V)
      → lookup l (assign k v m) ≡ (if k == l then some v else lookup l m)
  lookup-assign k l v m =
      ground (arith, lookup-assign_self l v m, lookup-assign_ne k l v m, ==_sound k l)

  -- for k, v := range m { if drop(k, v) { delete(m, k) } }
  unfoldable pub delete_where : (Bytes → V → Bool) → StringMap V → StringMap V
  delete_where drop [] = []
  delete_where drop ((j, w) ∷ m) =
      let rest = delete_where drop m in if drop j w then rest else (j, w) ∷ rest

  -- every key once, as in a Go map
  abbrev pub IsUnique : StringMap V → Type 0
  IsUnique [] = Unit
  IsUnique ((j, w) ∷ m) = (has_key j m ≡ false) × IsUnique m

  has_key-assign :
      (k l : Bytes) (v : V) (m : StringMap V)
      → (k == l) ≡ false
      → has_key l (assign k v m) ≡ has_key l m
  has_key-assign k l v m h = rw (lookup-assign_ne k l v m h) refl

  pub assign-IsUnique : (k : Bytes) (v : V) (m : StringMap V) → IsUnique m → IsUnique (assign k v m)
  unfolding assign lookup
  assign-IsUnique k v [] u = (refl, tt)
  assign-IsUnique k v ((j, w) ∷ m) u = elim (Bool-cases (j == k)) [
    | inl e ↦ rw e u
    | inr e ↦ rw e (has_key-assign k j v m (==_comm j k e) ∙ u.0, assign-IsUnique k v m u.1)
  ]

  pub lookup-remove_ne :
      (k l : Bytes) (m : StringMap V) → (k == l) ≡ false → lookup l (remove k m) ≡ lookup l m
  unfolding lookup remove
  lookup-remove_ne k l [] h = refl
  lookup-remove_ne k l ((j, w) ∷ m) h = ground (arith, h, lookup-remove_ne k l m h, ==_sound j k)

  none_of_has_key : (o : Option V) → is_some o ≡ false → o ≡ none
  none_of_has_key none h = refl
  none_of_has_key (some v) h = ground arith

  pub lookup-remove_self : (k : Bytes) (m : StringMap V) → IsUnique m → lookup k (remove k m) ≡ none
  unfolding lookup remove
  lookup-remove_self k [] u = refl
  lookup-remove_self k ((j, w) ∷ m) u = elim (Bool-cases (j == k)) [
    | inl e ↦
        rw e (none_of_has_key (lookup k m) (subst (λ i. has_key i m ≡ false) (==_sound j k e) u.0))
    | inr e ↦ rw (e, e) (lookup-remove_self k m u.1)
  ]

  pub remove-IsUnique : (k : Bytes) (m : StringMap V) → IsUnique m → IsUnique (remove k m)
  unfolding lookup remove
  remove-IsUnique k [] u = tt
  remove-IsUnique k ((j, w) ∷ m) u = elim (Bool-cases (j == k)) [
    | inl e ↦ rw e u.1
    | inr e ↦
        rw e (ap is_some (lookup-remove_ne k j m (==_comm j k e)) ∙ u.0, remove-IsUnique k m u.1)
  ]

  abbrev pub unless : (Bytes → V → Bool) → Bytes → Option V → Option V
  unless drop k none = none
  unless drop k (some v) = if drop k v then none else some v

  has_key-unless :
      (drop : Bytes → V → Bool) (k : Bytes) (o : Option V)
      → is_some o ≡ false
      → is_some (unless drop k o) ≡ false
  has_key-unless drop k o h = rw (none_of_has_key o h) refl

  pub lookup-delete_where :
      (drop : Bytes → V → Bool) (k : Bytes) (m : StringMap V)
      → IsUnique m
      → lookup k (delete_where drop m) ≡ unless drop k (lookup k m)
  unfolding lookup delete_where
  lookup-delete_where drop k [] u = refl
  lookup-delete_where drop k ((j, w) ∷ m) u =
      let next = lookup-delete_where drop k m u.1 in
      elim (Bool-cases (j == k)) [
        | inl e ↦
            let gone =
              none_of_has_key (lookup k m)
                (subst (λ i. has_key i m ≡ false) (==_sound j k e) u.0) in
            ground (arith, e, ==_sound j k e, next, gone)
        | inr e ↦ ground (arith, e, next)
      ]

  pub delete_where-IsUnique :
      (drop : Bytes → V → Bool) (m : StringMap V) → IsUnique m → IsUnique (delete_where drop m)
  unfolding delete_where
  delete_where-IsUnique drop [] u = tt
  delete_where-IsUnique drop ((j, w) ∷ m) u = elim (Bool-cases (drop j w)) [
    | inl e ↦ rw e (delete_where-IsUnique drop m u.1)
    | inr e ↦ rw e (
      ap is_some (lookup-delete_where drop j m u.1) ∙ has_key-unless drop j (lookup j m) u.0,
      delete_where-IsUnique drop m u.1,
    )
  ]
