-- ===== src/Http/Cache/Trace.antt =====
-- pkg/httputil/middleware/cache.go: sequences of calls of the cache.
use mathlib.Core.Path.{subst}
use pigo.Base.{
  ℕ, ◌≤◌, ◌≡◌, refl, true, false, Option, none, some, List, [], ◌∷◌, ltb, if◌then◌else◌, arith, inl,
  inr, ◌⊎◌, Bool-cases, lt_of_ltb, sym, ap₂, Option-cases,
}
use pigo.Base.Bytes.{Bytes, lookup, ◌==◌, ==_sound}
use pigo.Base.Int.{ℤ}
use pigo.Base.Maps.{
  remove, IsUnique, assign-IsUnique, unless, lookup-assign, lookup-delete_where,
  delete_where-IsUnique, lookup-remove_self, lookup-remove_ne, remove-IsUnique,
}
use pigo.Http.Cache.{CacheItem, Cache, new_cache, is_expired, set, get, cleanup_expired}

-- a call: the reading of the clock, and for a cleanup the readings and the time when it is done
pub data Call (V : Type 0) : Type 0 where
  set_call : ℕ → Bytes → V → ℤ → Call V
  get_call : ℕ → Bytes → Call V
  cleanup_call : ℕ → (Bytes → ℕ) → ℕ → Call V

-- the clock does not go back between the readings
abbrev pub IsChronological : {V : Type 0} → ℕ → List (Call V) → Type 0
IsChronological t [] = Unit
IsChronological t (set_call now key value duration ∷ calls) = (t ≤ now) × IsChronological now calls
IsChronological t (get_call now key ∷ calls) = (t ≤ now) × IsChronological now calls
IsChronological t (cleanup_call from readings until ∷ calls) =
    (t ≤ from)
    × ((key : Bytes) → (from ≤ readings key) × (readings key ≤ until))
    × IsChronological until calls

-- What the cache promises: the last value set for a key, until it expires. Nothing is deleted.
abbrev pub Promise : Type 0 → Type 0
Promise V = Bytes → Option (CacheItem V)

module _ {V : Type 0} (add : ℕ → ℤ → ℕ) where
  -- the answers of the Get calls
  unfoldable pub answers : List (Call V) → Cache V → List (Option V)
  answers [] items = []
  answers (set_call now key value duration ∷ calls) items =
      answers calls (set add now key value duration items)
  answers (get_call now key ∷ calls) items =
      (get now key items).0 ∷ answers calls (get now key items).1
  answers (cleanup_call from readings until ∷ calls) items =
      answers calls (cleanup_expired readings items)

  abbrev pub promised_value : ℕ → Option (CacheItem V) → Option V
  promised_value now none = none
  promised_value now (some item) = if ltb item.expiration now then none else some item.value

  unfoldable pub promised : List (Call V) → Promise V → List (Option V)
  promised [] p = []
  promised (set_call now key value duration ∷ calls) p = promised calls (λ k.
      if key == k then some (record { value = value; expiration = add now duration }) else p k)
  promised (get_call now key ∷ calls) p = promised_value now (p key) ∷ promised calls p
  promised (cleanup_call from readings until ∷ calls) p = promised calls p

  -- A key holds what was promised, or nothing when that has expired before the time.
  abbrev IsKept : ℕ → Cache V → Promise V → Type 0
  IsKept t items p =
      (key : Bytes)
      → (lookup key items ≡ p key)
        ⊎ ((lookup key items ≡ none) × ((now : ℕ) → t ≤ now → promised_value now (p key) ≡ none))

  later_IsKept :
      (t now : ℕ) (items : Cache V) (p : Promise V)
      → t ≤ now
      → IsKept t items p
      → IsKept now items p
  later_IsKept t now items p h kept key = elim (kept key) [
    | inl same ↦ inl same
    | inr gone ↦ inr (gone.0, λ n le. gone.1 n (omega (arith, h, le)))
  ]

  set-IsKept :
      (now : ℕ) (key : Bytes) (value : V) (duration : ℤ) (items : Cache V) (p : Promise V)
      → IsKept now items p
      → IsKept now (set add now key value duration items) (λ k.
        if key == k then some (record { value = value; expiration = add now duration }) else p k)
  unfolding set
  set-IsKept now key value duration items p kept k =
      let item : CacheItem V = record { value = value; expiration = add now duration } in
      elim (Bool-cases (key == k)) [
        | inl e ↦ inl (rw (lookup-assign key k item items, e) refl)
        | inr e ↦ rw (lookup-assign key k item items, e) (kept k)
      ]

  promised_none :
      (t now : ℕ) (item : CacheItem V)
      → ltb item.expiration t ≡ true
      → t ≤ now
      → promised_value now (some item) ≡ none
  promised_none t now item e h = ground (arith, lt_of_ltb item.expiration t e)

  get_answer :
      (now : ℕ) (key : Bytes) (items : Cache V) (p : Promise V)
      → IsKept now items p
      → (get now key items).0 ≡ promised_value now (p key)
  unfolding get is_expired
  get_answer now key items p kept = elim (kept key) [
    | inl same ↦ rw (get, same) (go (p key))
    | inr gone ↦ rw (get, gone.0) (sym (gone.1 now (omega arith)))
  ]
    where
      go :
          (o : Option (CacheItem V))
          → (elim o as (λ _. Option V × Cache V) [
            | none ↦ (none, items)
            | some item ↦
                if ltb item.expiration now
                then (none, remove key items)
                else (some item.value, items)
          ]).0
            ≡ promised_value now o
      go none = refl
      go (some item) = ground arith

  get-IsKept :
      (now : ℕ) (key : Bytes) (items : Cache V) (p : Promise V)
      → IsUnique items
      → IsKept now items p
      → IsKept now (get now key items).1 p × IsUnique (get now key items).1
  unfolding get is_expired
  get-IsKept now key items p u kept = elim (Option-cases (lookup key items)) [
    | inl e ↦ rw (get, e) (kept, u)
    | inr (item, e) ↦ rw (get, e) (go item e (Bool-cases (ltb item.expiration now)))
  ]
    where
      emptied :
          (item : CacheItem V)
          → lookup key items ≡ some item
          → ltb item.expiration now ≡ true
          → IsKept now (remove key items) p
      emptied item e late k = elim (Bool-cases (key == k)) [
        | inl same ↦
            let eq = ==_sound key k same in
            inr (
              subst (λ i. lookup i (remove key items) ≡ none) eq (lookup-remove_self key items u),
              λ n le. elim (kept k) [
                | inl held ↦ rw (← held, ← eq, e) (promised_none now n item late le)
                | inr gone ↦ gone.1 n le
              ],
            )
        | inr other ↦ rw (lookup-remove_ne key k items other) (kept k)
      ]

      go :
          (item : CacheItem V) (e : lookup key items ≡ some item)
          → (ltb item.expiration now ≡ true) ⊎ (ltb item.expiration now ≡ false)
          → IsKept now
              (if◌then◌else◌ {A = Option V × Cache V}
                (ltb item.expiration now)
                (none, remove key items)
                (some item.value, items)).1
              p
            × IsUnique
                (if◌then◌else◌ {A = Option V × Cache V}
                  (ltb item.expiration now)
                  (none, remove key items)
                  (some item.value, items)).1
      go item e (inl late) = rw late (emptied item e late, remove-IsUnique key items u)
      go item e (inr fresh) = rw fresh (kept, u)

  cleanup-IsKept :
      (from : ℕ) (readings : Bytes → ℕ) (until : ℕ) (items : Cache V) (p : Promise V)
      → ((key : Bytes) → (from ≤ readings key) × (readings key ≤ until))
      → IsUnique items
      → IsKept from items p
      → IsKept until (cleanup_expired readings items) p
  unfolding cleanup_expired is_expired
  cleanup-IsKept from readings until items p h u kept k =
      rw (lookup-delete_where (λ key item. ltb item.expiration (readings key)) k items u)
        (elim (kept k) [
          | inl same ↦ rw same (go (p k))
          | inr gone ↦
              rw gone.0 (inr (refl, λ n le. gone.1 n (omega (arith, le, (h k).0, (h k).1))))
        ])
    where
      go :
          (o : Option (CacheItem V))
          → (unless (λ key item. ltb item.expiration (readings key)) k o ≡ o)
            ⊎ ((unless (λ key item. ltb item.expiration (readings key)) k o ≡ none)
                × ((n : ℕ) → until ≤ n → promised_value n o ≡ none))
      go none = inl refl
      go (some item) = elim (Bool-cases (ltb item.expiration (readings k))) [
        | inl late ↦ rw late (
            inr (refl, λ n le. promised_none (readings k) n item late (omega (arith, le, (h k).1))))
        | inr fresh ↦ rw fresh (inl refl)
      ]

  answers-promised :
      (calls : List (Call V)) (t : ℕ) (items : Cache V) (p : Promise V)
      → IsChronological t calls
      → IsUnique items
      → IsKept t items p
      → answers calls items ≡ promised calls p
  unfolding answers promised set cleanup_expired
  answers-promised [] t items p h u kept = refl
  answers-promised (set_call now key value duration ∷ calls) t items p h u kept =
      answers-promised calls now _ _ h.1 (assign-IsUnique key _ items u)
        (set-IsKept now key value duration items p (later_IsKept t now items p h.0 kept))
  answers-promised (get_call now key ∷ calls) t items p h u kept =
      let here = later_IsKept t now items p h.0 kept in
      let (kept', u') = get-IsKept now key items p u here in
      ap₂ (λ a rest. a ∷ rest) (get_answer now key items p here)
        (answers-promised calls now _ p h.1 u' kept')
  answers-promised (cleanup_call from readings until ∷ calls) t items p h u kept =
      answers-promised calls until _ p h.2 (delete_where-IsUnique _ items u)
        (cleanup-IsKept from readings until items p h.1 u (later_IsKept t from items p h.0 kept))

  -- A cache that starts empty answers every sequence of Set, Get and CleanupExpired calls in which
  -- the clock does not go back as the map does that only ever adds the values set and gives each
  -- one until it expires: what Get and CleanupExpired delete is never missed.
  pub cache_refines_promise :
      (calls : List (Call V))
      → IsChronological 0 calls
      → answers calls new_cache ≡ promised calls (λ key. none)
  unfolding new_cache lookup
  cache_refines_promise calls h = answers-promised calls 0 [] (λ key. none) h tt (λ key. inl refl)
