-- ===== src/Rest/Query/Sorted.antt =====
-- pkg/rest/query.go: the order of the columns in INSERT and UPDATE.
use pigo.Base.{◌≡◌, ◌≢◌, refl, ap, ◌∙◌, true, false, Option, [], ◌∷◌, arith}
use pigo.Base.Bytes.{Bytes}
use pigo.Base.Json.{Value}
use pigo.Pgx.Schema.{Table}
use pigo.Rest.Filter.Sql.{Env}
use pigo.Rest.Headers.{Headers}
use pigo.Rest.Query.{
  StringMap, QueryParams, le_bytes, insert_key, sorted, build_insert_query, build_update_query,
}

le_bytes-antisym : (s t : Bytes) → le_bytes s t ≡ true → le_bytes t s ≡ true → s ≡ t
unfolding le_bytes
le_bytes-antisym [] [] h k = refl
le_bytes-antisym [] (d ∷ t) h k = cc
le_bytes-antisym (c ∷ s) [] h k = cc
le_bytes-antisym (c ∷ s) (d ∷ t) h k = ground (arith, le_bytes-antisym s t)

le_bytes-total : (s t : Bytes) → le_bytes s t ≡ false → le_bytes t s ≡ true
unfolding le_bytes
le_bytes-total [] t h = cc
le_bytes-total (c ∷ s) [] h = refl
le_bytes-total (c ∷ s) (d ∷ t) h = ground (arith, le_bytes-total s t)

le_bytes_trans : (s t v : Bytes) → le_bytes s t ≡ true → le_bytes t v ≡ true → le_bytes s v ≡ true
unfolding le_bytes
le_bytes_trans [] t v h k = refl
le_bytes_trans (c ∷ s) [] v h k = cc
le_bytes_trans (c ∷ s) (d ∷ t) [] h k = cc
le_bytes_trans (c ∷ s) (d ∷ t) (e ∷ v) h k = ground (arith, le_bytes_trans s t v)

module _ {V : Type 0} where
  -- The walks of one map: the order of the entries differs, and no key stands twice where two
  -- entries change places.
  pub data Reorder : StringMap V → StringMap V → Type 0 where
    same : {m : StringMap V} → Reorder m m
    keep : {m n : StringMap V} (e : Bytes × V) → Reorder m n → Reorder (e ∷ m) (e ∷ n)
    swap : {m : StringMap V} (e f : Bytes × V) → e.0 ≢ f.0 → Reorder (e ∷ f ∷ m) (f ∷ e ∷ m)
    after : {m n o : StringMap V} → Reorder m n → Reorder n o → Reorder m o

  insert_comm :
      (e f : Bytes × V) (m : StringMap V)
      → e.0 ≢ f.0
      → insert_key e (insert_key f m) ≡ insert_key f (insert_key e m)
  unfolding insert_key
  insert_comm e f [] h = ground (arith, h, le_bytes-antisym e.0 f.0, le_bytes-total e.0 f.0)
  insert_comm e f (g ∷ m) h = ground (
    arith,
    h,
    le_bytes-antisym e.0 f.0,
    le_bytes-total e.0 f.0,
    le_bytes_trans e.0 f.0 g.0,
    le_bytes_trans f.0 e.0 g.0,
    insert_comm e f m h,
  )

  sorted-Reorder : {m n : StringMap V} → Reorder m n → sorted m ≡ sorted n
  unfolding sorted
  sorted-Reorder same = refl
  sorted-Reorder (keep e r) = ap (insert_key e) (sorted-Reorder r)
  sorted-Reorder (swap e f h) = insert_comm e f _ h
  sorted-Reorder (after r r') = sorted-Reorder r ∙ sorted-Reorder r'

-- INSERT and UPDATE are the same text with the same parameters, or refused with the same error,
-- whatever order Go walks the map of the request's body in.
pub statements_are_deterministic :
    (env : Env) (table : Table) (m n : StringMap Value) (params : QueryParams)
    (headers : Option Headers)
    → Reorder m n
    → (build_insert_query env table m headers ≡ build_insert_query env table n headers)
      × (build_update_query env table m params headers
          ≡ build_update_query env table n params headers)
unfolding build_insert_query build_update_query
statements_are_deterministic env table m n params headers r =
    let same_order = sorted-Reorder r in (rw same_order refl, rw same_order refl)
