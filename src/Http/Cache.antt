-- ===== src/Http/Cache.antt =====
-- pkg/httputil/middleware/cache.go: a cache in memory whose items expire.
-- Time is a count of nanoseconds, Time.Add a parameter. Each reading of the clock is an argument:
-- Get reads it once, CleanupExpired once for each item. The map is walked in the list's order.
use pigo.Base.{ℕ, Bool, true, false, Option, none, some, List, [], ◌∷◌, ltb, if◌then◌else◌}
use pigo.Base.Bytes.{Bytes, lookup}
use pigo.Base.Int.{ℤ}
use pigo.Base.Maps.{StringMap, assign, remove, delete_where}
pub mod Trace

pub record CacheItem (V : Type 0) : Type 0 where
  pub value : V
  pub expiration : ℕ

abbrev pub Cache : Type 0 → Type 0
Cache V = StringMap (CacheItem V)

module _ {V : Type 0} where
  unfoldable pub new_cache : Cache V
  new_cache = []

  -- Time.After
  unfoldable pub is_expired : ℕ → CacheItem V → Bool
  is_expired now item = ltb item.expiration now

  unfoldable pub set : (ℕ → ℤ → ℕ) → ℕ → Bytes → V → ℤ → Cache V → Cache V
  set add now key value duration items =
      assign key (record { value = value; expiration = add now duration }) items

  -- an expired item is deleted when it is asked for
  unfoldable pub get : ℕ → Bytes → Cache V → Option V × Cache V
  unfolding lookup is_expired
  get now key items = elim (lookup key items) [
    | none ↦ (none, items)
    | some item ↦ if is_expired now item then (none, remove key items) else (some item.value, items)
  ]

  unfoldable pub cleanup_expired : (Bytes → ℕ) → Cache V → Cache V
  cleanup_expired now items = delete_where (λ key item. is_expired (now key) item) items
