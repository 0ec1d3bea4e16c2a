-- ===== src/Rest/Query/Collected.antt =====
-- pkg/rest/query.go: the filters of a request, as parseQueryParams collects them.
use pigo.Base.{◌≡◌, refl, ap, ◌∙◌, Bool, true, not, ◌&&◌, ◌||◌, List, [], ◌∷◌, ◌++◌, any, arith}
use pigo.Base.Bytes.{Bytes, ◌==◌, ==_sound}
use pigo.Base.Utf8.{Unicode}
use pigo.Rest.Filter.{RawFilter}
use pigo.Rest.Query.{
  StringMap, insert_key, sorted, is_reserved_param, filters_of_key, collect_filters,
  parse_query_params,
}

-- the query has the value for the key
abbrev pub is_offered : Bytes → Bytes → StringMap (List Bytes) → Bool
is_offered key v query = any (λ e. e.0 == key && any (λ w. w == v) e.1) query

-- the filters have the value for the key
abbrev pub is_filter : Bytes → Bytes → List RawFilter → Bool
is_filter key v filters = any (λ f. f.key == key && f.value == v) filters

is_filter-append :
    (key v : Bytes) (fs gs : List RawFilter)
    → is_filter key v (fs ++ gs) ≡ (is_filter key v fs || is_filter key v gs)
is_filter-append key v [] gs = refl
is_filter-append key v (f ∷ fs) gs = ground (arith, is_filter-append key v fs gs)

is_filter-of_key :
    (key v k : Bytes) (vs : List Bytes)
    → is_filter key v (filters_of_key k vs) ≡ (k == key && any (λ w. w == v) vs)
is_filter-of_key key v k [] = ground arith
is_filter-of_key key v k (w ∷ vs) = ground (arith, is_filter-of_key key v k vs)

same_reserved : (k key : Bytes) → (k == key) ≡ true → is_reserved_param k ≡ is_reserved_param key
same_reserved k key h = ap is_reserved_param (==_sound k key h)

collected :
    (key v : Bytes) (query : StringMap (List Bytes))
    → is_filter key v (collect_filters query)
      ≡ (not (is_reserved_param key) && is_offered key v query)
unfolding collect_filters
collected key v [] = ground arith
collected key v ((k, vs) ∷ query) = ground (
  arith,
  collected key v query,
  same_reserved k key,
  is_filter-of_key key v k vs,
  is_filter-append key v (filters_of_key k vs) (collect_filters query),
)

offered_inserted :
    (key v : Bytes) (e : Bytes × List Bytes) (query : StringMap (List Bytes))
    → is_offered key v (insert_key e query) ≡ is_offered key v (e ∷ query)
unfolding insert_key
offered_inserted key v e [] = refl
offered_inserted key v e (f ∷ query) = ground (arith, offered_inserted key v e query)

offered_sorted :
    (key v : Bytes) (query : StringMap (List Bytes))
    → is_offered key v (sorted query) ≡ is_offered key v query
unfolding sorted
offered_sorted key v [] = refl
offered_sorted key v (e ∷ query) =
    ground (arith, offered_sorted key v query, offered_inserted key v e (sorted query))

-- The filters of a request hold a value for a key exactly where the query has it and the key is not
-- one of the reserved six, however often the key is repeated and in whatever order the map is walked.
pub filters_are_collected :
    (u : Unicode) (key v : Bytes) (query : StringMap (List Bytes))
    → is_filter key v (parse_query_params u query).filters
      ≡ (not (is_reserved_param key) && is_offered key v query)
unfolding parse_query_params
filters_are_collected u key v query =
    collected key v (sorted query)
    ∙ ap (λ b. not (is_reserved_param key) && b) (offered_sorted key v query)
