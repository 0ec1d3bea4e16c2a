-- ===== src/Rest/Server/Ranges.antt =====
-- pkg/rest/server.go: the Content-Range header of executeQuery.
use pigo.Base.{ℕ, if◌then◌else◌, ap, ◌∙◌, ◌+◌, ◌-◌, ◌^◌, ◌≤◌, ◌<◌, ◌≡◌, ◌⊎◌, ◌++◌, arith, ltb}
use pigo.Base.Int.{pos, negsuc, ◌+ℤ◌}
use pigo.Base.Bytes.{codes, decimal}
use pigo.Rest.Server.{format_int, wrap64, range_end, content_range}

wrap64_pos : (n : ℕ) → n < 2 ^ 63 → wrap64 (pos n) ≡ pos n
unfolding wrap64
wrap64_pos n h = ground (arith, h)

add_pos : (a b : ℕ) → pos a +ℤ pos b ≡ pos (a + b)
unfolding ◌+ℤ◌
add_pos a b = ground arith

pred_pos : (n : ℕ) → 0 < n → pos n +ℤ negsuc 0 ≡ pos (n - 1)
unfolding ◌+ℤ◌
pred_pos n h = ground arith

range_end_pos : (o l : ℕ) → 0 < l → o + l < 2 ^ 63 → range_end (pos o) (pos l) ≡ pos (o + l - 1)
unfolding range_end
range_end_pos o l h k =
    ap (λ z. wrap64 (wrap64 z +ℤ negsuc 0)) (add_pos o l)
    ∙ (ap (λ z. wrap64 (z +ℤ negsuc 0)) (wrap64_pos (o + l) k)
        ∙ (ap wrap64 (pred_pos (o + l) (omega (arith, h)))
            ∙ wrap64_pos (o + l - 1) (omega (arith, k))))

-- the last row of a page, counted from 0
abbrev pub last_row : ℕ → ℕ → ℕ → ℕ
last_row limit offset count = if ltb (offset + limit) count then offset + limit - 1 else count - 1

-- The header of a page that starts within the count, where offset and limit do not pass the
-- bounds of int64 together: it names the rows from `offset` to a last one, counted from 0, which
-- lies in the result, and where the page ends by its limit or the result ends.
pub content_range_of_page :
    (limit offset count : ℕ)
    → 0 < limit
    → offset < count
    → offset + limit < 2 ^ 63
    → (last : ℕ) × (content_range (pos limit) (pos offset) count
        ≡ decimal offset ++ codes "-" ++ decimal last ++ (codes "/" ++ decimal count))
      × (offset ≤ last)
      × (last < count)
      × ((last + 1 ≡ offset + limit) ⊎ ((last + 1 ≡ count) × (count ≤ offset + limit)))
unfolding content_range format_int
content_range_of_page limit offset count h k b = (
  last_row limit offset count,
  ground (arith, range_end_pos offset limit h b, pred_pos count (omega (arith, k)), h, k),
  ground (arith, h, k),
  ground (arith, h, k),
  ground (arith, h, k),
)
