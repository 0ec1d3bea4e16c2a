-- ===== src/Rest/Order/Suffixes.antt =====
-- pkg/rest/order_by.go: the suffixes of a part of `order`.
use mathlib.Core.List.{reverse, reverse-append}
use pigo.Base.{
  ◌≡◌, refl, ◌-◌, Bool, true, false, none, [], ◌++◌, arith, length, take-append, length-append,
  if◌then◌else◌,
}
use pigo.Base.Bytes.{Bytes, codes, has_suffix, has_prefix, has_prefix-append, trim_suffix}
use pigo.Base.Utf8.{Unicode}
use pigo.Rest.Order.{find_similarity, cut_direction, cut_nulls, parse_order_part}

has_suffix-append : (s t : Bytes) → has_suffix (s ++ t) t ≡ true
unfolding has_suffix
has_suffix-append s t = rw (reverse-append s t) (has_prefix-append (reverse t) (reverse s))

trim_suffix-append : (s t : Bytes) → trim_suffix (s ++ t) t ≡ s
unfolding trim_suffix
trim_suffix-append s t =
    let n : length (s ++ t) - length t ≡ length s = omega (arith, length-append s t) in
    rw (has_suffix-append s t, n) (take-append s t)

abbrev pub direction_suffix : Bool → Bytes
direction_suffix descending = if descending then codes ".desc" else codes ".asc"

abbrev pub nulls_suffix : Bool → Bytes
nulls_suffix first = if first then codes ".nullsfirst" else codes ".nullslast"

abbrev pub direction_of : Bool → Bytes
direction_of descending = if descending then codes "desc" else codes "asc"

abbrev pub nulls_of : Bool → Bytes
nulls_of first = if first then codes "first" else codes "last"

asc_no_desc : (s : Bytes) → has_suffix (s ++ codes ".asc") (codes ".desc") ≡ false
unfolding has_suffix has_prefix
asc_no_desc s = rw (reverse-append s (codes ".asc")) refl

cut_direction-append :
    (s : Bytes) (descending : Bool)
    → cut_direction (s ++ direction_suffix descending) ≡ (s, direction_of descending)
unfolding cut_direction
cut_direction-append s true =
    rw (has_suffix-append s (codes ".desc"), trim_suffix-append s (codes ".desc")) refl
cut_direction-append s false =
    rw (asc_no_desc s, has_suffix-append s (codes ".asc"), trim_suffix-append s (codes ".asc")) refl

last_no_first : (s : Bytes) → has_suffix (s ++ codes ".nullslast") (codes ".nullsfirst") ≡ false
unfolding has_suffix has_prefix
last_no_first s = rw (reverse-append s (codes ".nullslast")) refl

cut_nulls-append :
    (s : Bytes) (first : Bool) → cut_nulls (s ++ nulls_suffix first) ≡ (s, nulls_of first)
unfolding cut_nulls
cut_nulls-append s true =
    rw (has_suffix-append s (codes ".nullsfirst"), trim_suffix-append s (codes ".nullsfirst")) refl
cut_nulls-append s false =
    rw
      (
        last_no_first s,
        has_suffix-append s (codes ".nullslast"),
        trim_suffix-append s (codes ".nullslast"),
      )
      refl

-- a suffix for nulls is none for a direction
cut_direction-nulls :
    (s : Bytes) (first : Bool)
    → cut_direction (s ++ nulls_suffix first) ≡ (s ++ nulls_suffix first, codes "asc")
unfolding cut_direction has_suffix has_prefix
cut_direction-nulls s true = rw (reverse-append s (codes ".nullsfirst")) refl
cut_direction-nulls s false = rw (reverse-append s (codes ".nullslast")) refl

nulls_before_direction :
    (u : Unicode) (name : Bytes) (first descending : Bool)
    → find_similarity (name ++ nulls_suffix first ++ direction_suffix descending) ≡ none
    → parse_order_part u (name ++ nulls_suffix first ++ direction_suffix descending) ≡ record {
      column = name;
      direction = direction_of descending;
      nulls_position = nulls_of first;
      similarity = [];
    }
unfolding parse_order_part
nulls_before_direction u name first descending h = ground (
  arith,
  h,
  cut_direction-append (name ++ nulls_suffix first) descending,
  cut_nulls-append name first,
)

direction_before_nulls :
    (u : Unicode) (name : Bytes) (first descending : Bool)
    → find_similarity (name ++ direction_suffix descending ++ nulls_suffix first) ≡ none
    → parse_order_part u (name ++ direction_suffix descending ++ nulls_suffix first) ≡ record {
      column = name ++ direction_suffix descending;
      direction = codes "asc";
      nulls_position = nulls_of first;
      similarity = [];
    }
unfolding parse_order_part
direction_before_nulls u name first descending h = ground (
  arith,
  h,
  cut_direction-nulls (name ++ direction_suffix descending) first,
  cut_nulls-append (name ++ direction_suffix descending) first,
)

-- Of a part that is no similarity(), with the position of nulls before the direction, come its column,
-- direction and position of nulls. With the direction before the position, as PostgREST writes them,
-- the direction stays in the name of the column, and the order is ascending.
pub order_of_suffixes :
    (u : Unicode) (name : Bytes) (first descending : Bool)
    → find_similarity (name ++ nulls_suffix first ++ direction_suffix descending) ≡ none
    → find_similarity (name ++ direction_suffix descending ++ nulls_suffix first) ≡ none
    → (parse_order_part u (name ++ nulls_suffix first ++ direction_suffix descending) ≡ record {
      column = name;
      direction = direction_of descending;
      nulls_position = nulls_of first;
      similarity = [];
    })
      × (parse_order_part u (name ++ direction_suffix descending ++ nulls_suffix first) ≡ record {
        column = name ++ direction_suffix descending;
        direction = codes "asc";
        nulls_position = nulls_of first;
        similarity = [];
      })
order_of_suffixes u name first descending h k = (
  nulls_before_direction u name first descending h,
  direction_before_nulls u name first descending k,
)
