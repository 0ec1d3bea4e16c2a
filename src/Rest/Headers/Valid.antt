-- ===== src/Rest/Headers/Valid.antt =====
-- pkg/rest/http_headers.go: what a Prefer header can come to.
use mathlib.Core.Path.{subst}
use pigo.Base.{
  if◌then◌else◌, is_empty, ◌≡◌, refl, Bool, true, false, Option, none, some, List, [], ◌∷◌, ◌⊎◌,
  inl, arith, eqb,
}
use pigo.Base.Bytes.{Bytes, codes, ◌==◌, split}
use pigo.Base.Utf8.{Unicode, to_lower, trim_space, trim_func}
use pigo.Rest.Headers.{
  Prefer, cut_equals, is_valid_return, is_valid_count, apply_preference, apply_directive,
  apply_directives, parse_prefer,
}

-- `return` and `count` are words that the two tests accept; `count` may be absent.
abbrev pub IsValid : Unicode → Prefer → Type 0
IsValid u p =
    (is_valid_return u p.returns ≡ true) × ((p.count ≡ []) ⊎ (is_valid_count u p.count ≡ true))

apply_preference-IsValid :
    (u : Unicode) (key value : Bytes) (p : Prefer)
    → IsValid u p
    → IsValid u (apply_preference u key value p)
unfolding apply_preference
apply_preference-IsValid u key value p h = ground (arith, h.0, h.1)

apply_directive-IsValid :
    (u : Unicode) (pref : Bytes) (p : Prefer) → IsValid u p → IsValid u (apply_directive u pref p)
unfolding apply_directive
apply_directive-IsValid u pref p h = go (cut_equals (trim_space u pref))
  where
    go :
        (o : Option (Bytes × Bytes))
        → IsValid u (elim o as (λ _. Prefer) [
          | none ↦ p
          | some (key, value) ↦
              apply_preference u
                (trim_space u (to_lower u key))
                (trim_func (λ c. eqb c b'"') (trim_space u value))
                p
        ])
    go none = h
    go (some (key, value)) =
        apply_preference-IsValid u (trim_space u (to_lower u key))
          (trim_func (λ c. eqb c b'"') (trim_space u value)) p h

apply_directives-IsValid :
    (u : Unicode) (prefs : List Bytes) (p : Prefer)
    → IsValid u p
    → IsValid u (apply_directives u prefs p)
unfolding apply_directives
apply_directives-IsValid u [] p h = h
apply_directives-IsValid u (pref ∷ prefs) p h =
    apply_directives-IsValid u prefs (apply_directive u pref p) (apply_directive-IsValid u pref p h)

abbrev default_prefer : Prefer
default_prefer = record { returns = codes "minimal"; count = [] }

default-IsValid : (u : Unicode) → IsValid u default_prefer
unfolding is_valid_return to_lower ◌==◌
default-IsValid u = (refl, inl refl)

-- Whatever the Prefer header holds, the preference that comes of it returns one of the three forms
-- and has no count or one of the three counts: a word that is not valid never replaces one that is.
pub parse_prefer-IsValid :
    (u : Unicode) (header : Bytes) (p : Prefer) → parse_prefer u header ≡ some p → IsValid u p
unfolding parse_prefer
parse_prefer-IsValid u header p h = go (is_empty header) h
  where
    go :
        (b : Bool)
        → (if b then none else some (apply_directives u (split b',' header) default_prefer))
          ≡ some p
        → IsValid u p
    go true e = cc
    go false e =
        let same : apply_directives u (split b',' header) default_prefer ≡ p = cc in
        subst (IsValid u) same
          (apply_directives-IsValid u (split b',' header) default_prefer (default-IsValid u))
