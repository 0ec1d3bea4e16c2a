-- ===== src/Http/Middleware/Credentials.antt =====
-- pkg/httputil/middleware/basic_auth.go: which requests reach the handler as which user.
use pigo.Base.{
  false, none, ap₂, ℕ, ◌≡◌, refl, ap, ◌∙◌, Bool, true, Option, some, [], ◌∷◌, ◌++◌, if◌then◌else◌,
  arith, ◌⊎◌, inl, inr, Bool-cases, Option-cases, is_empty, drop, length, eqb,
}
use pigo.Base.Bytes.{contains_byte, ==_refl, Bytes, codes, ◌==◌, ==_sound, lookup, has_prefix}
use pigo.Base.Maps.{StringMap}
use pigo.Http.Middleware.{Request, Response, Next, get_header, challenge, verify_basic_auth}
use pigo.Http.Router.{cut}

cut-append : (sep : ℕ) (s a b : Bytes) → cut sep s ≡ some (a, b) → s ≡ a ++ sep ∷ b
unfolding cut
cut-append sep [] a b h = ground arith
cut-append sep (c ∷ s) a b h = elim (Bool-cases (eqb c sep)) [
  | inl e ↦ ground (arith, h, e)
  | inr e ↦ elim (Option-cases (cut sep s)) [
    | inl f ↦ ground (arith, h, e, f)
    | inr (p, f) ↦ ground (arith, h, e, f, cut-append sep s p.0 p.1 f)
  ]
]

has_prefix-drop : (s p : Bytes) → has_prefix s p ≡ true → s ≡ p ++ drop (length p) s
unfolding has_prefix
has_prefix-drop s [] h = refl
has_prefix-drop [] (d ∷ p) h = ground arith
has_prefix-drop (c ∷ s) (d ∷ p) h = ground (arith, has_prefix-drop s p)

cut-colon_free : (sep : ℕ) (s a b : Bytes) → cut sep s ≡ some (a, b) → contains_byte sep a ≡ false
unfolding cut contains_byte
cut-colon_free sep [] a b h = ground arith
cut-colon_free sep (c ∷ s) a b h = elim (Bool-cases (eqb c sep)) [
  | inl e ↦ ground (arith, h, e)
  | inr e ↦ elim (Option-cases (cut sep s)) [
    | inl f ↦ ground (arith, h, e, f)
    | inr (p, f) ↦ ground (arith, h, e, f, cut-colon_free sep s p.0 p.1 f)
  ]
]

cut-behind :
    (sep : ℕ) (a b : Bytes) → contains_byte sep a ≡ false → cut sep (a ++ sep ∷ b) ≡ some (a, b)
unfolding cut contains_byte
cut-behind sep [] b h = ground arith
cut-behind sep (c ∷ a) b h = elim (Bool-cases (eqb c sep)) [
  | inl e ↦ ground (arith, h, e)
  | inr e ↦ ground (arith, h, e, cut-behind sep a b (ground (arith, h, e)))
]

-- The header names a user with the password that is configured; a user ends at the first colon.
abbrev pub IsVerified : (Bytes → Option Bytes) → StringMap Bytes → Bytes → Bytes → Type 0
IsVerified decode credentials header user =
    (encoded : Bytes) × (password : Bytes) × (header ≡ codes "Basic " ++ encoded)
    × (decode encoded ≡ some (user ++ 58 ∷ password))
    × (contains_byte 58 user ≡ false)
    × (lookup user credentials ≡ some password)

-- what verifyBasicAuth finds in the header of a user
abbrev Found : (Bytes → Option Bytes) → StringMap Bytes → Bytes → Bytes → Type 0
Found decode credentials header user =
    (text : Bytes) × (password : Bytes) × (is_empty header ≡ false)
    × (has_prefix header (codes "Basic ") ≡ true)
    × (decode (drop 6 header) ≡ some text)
    × (cut 58 text ≡ some (user, password))
    × (lookup user credentials ≡ some password)

IsVerified-Found :
    (decode : Bytes → Option Bytes) (credentials : StringMap Bytes) (header user : Bytes)
    → IsVerified decode credentials header user
    → Found decode credentials header user
unfolding has_prefix
IsVerified-Found decode credentials header user
      (encoded, password, named, decoded, no_colon, configured) =
    (
      user ++ 58 ∷ password,
      password,
      ap is_empty named,
      ap (λ h. has_prefix h (codes "Basic ")) named,
      ap (λ h. decode (drop 6 h)) named ∙ decoded,
      cut-behind 58 user password no_colon,
      configured,
    )

module _ (error : Bytes → ℕ → Response → Response) (decode : Bytes → Option Bytes)
    (credentials : StringMap Bytes) (send401 : Bool) (r : Request) (w : Response) where
  -- the handler runs as the user of the request
  abbrev pub RunsAs : Bytes → Type 0
  RunsAs user =
      (next : Next)
      → verify_basic_auth error decode credentials send401 next r w
        ≡ next (record r { user = some user }) w

  -- the handler does not run, or, without send401, runs on the request as it came
  abbrev pub IsRefused : Type 0
  IsRefused =
      (refused : Response) × ((next : Next)
        → verify_basic_auth error decode credentials send401 next r w
          ≡ (if send401 then refused else next r w))

-- Where the request's Authorization header gives a user with the configured password, the handler runs
-- for that user. Where it gives no user with the configured password, the response, with send401, does
-- not depend on the handler, which does not run; without, the handler runs on the request as it came.
-- One of the two is always the case.
pub basic_auth_lem :
    (error : Bytes → ℕ → Response → Response) (decode : Bytes → Option Bytes)
    (credentials : StringMap Bytes) (send401 : Bool) (r : Request) (w : Response)
    → ((user : Bytes) × IsVerified decode credentials
          (get_header (codes "Authorization") r.headers)
          user
        × RunsAs error decode credentials send401 r w user)
      ⊎ (((user : Bytes)
            → IsVerified decode credentials (get_header (codes "Authorization") r.headers) user
            → ⊥)
          × IsRefused error decode credentials send401 r w)
unfolding verify_basic_auth
basic_auth_lem error decode credentials send401 r w = elim (Bool-cases (is_empty header)) [
  | inl e ↦ inr (
    unverified (λ user (other, password, some_header, basic, decoded, parts, configured). cc),
    (error (codes "Authorization header missing") 401 (challenge w), λ next. rw e refl),
  )
  | inr e ↦ elim (Bool-cases (has_prefix header (codes "Basic "))) [
    | inr f ↦ inr (
      unverified (λ user (other, password, some_header, basic, decoded, parts, configured). cc),
      (error (codes "Invalid authorization format") 401 w, λ next. rw (e, f) refl),
    )
    | inl f ↦ elim (Option-cases (decode (drop 6 header))) [
      | inl g ↦ inr (
        unverified (λ user (other, password, some_header, basic, decoded, parts, configured). cc),
        (error (codes "Invalid base64 encoding") 401 w, λ next. rw (e, f, g) refl),
      )
      | inr (text, g) ↦ elim (Option-cases (cut 58 text)) [
        | inl i ↦ inr (
          unverified (λ user (other, password, some_header, basic, decoded, parts, configured). cc),
          (error (codes "Invalid credentials format") 401 w, λ next. rw (e, f, g, i) refl),
        )
        | inr (p, i) ↦ elim (Option-cases (lookup p.0 credentials)) [
          | inl j ↦ inr (
            unverified (λ user (other, password, some_header, basic, decoded, parts, configured).
                other_user text p g i user other password decoded parts configured j),
            (
              error (codes "Invalid credentials") 401 (challenge w),
              λ next. rw (e, f, g, i, j) refl,
            ),
          )
          | inr (valid, j) ↦ elim (Bool-cases (valid == p.1)) [
            | inr k ↦ inr (
              unverified (λ user (other, password, some_header, basic, decoded, parts, configured).
                  wrong_password text p g i user other password decoded parts configured valid j k),
              (
                error (codes "Invalid credentials") 401 (challenge w),
                λ next. rw (e, f, g, i, j, k) refl,
              ),
            )
            | inl k ↦ inl (
              p.0,
              (
                drop 6 header,
                p.1,
                has_prefix-drop header (codes "Basic ") f,
                g ∙ ap some (cut-append 58 text p.0 p.1 i),
                cut-colon_free 58 text p.0 p.1 i,
                j ∙ ap some (==_sound valid p.1 k),
              ),
              λ next. rw (e, f, g, i, j, k) refl,
            )
          ]
        ]
      ]
    ]
  ]
]
  where
    header : Bytes
    header = get_header (codes "Authorization") r.headers

    unverified :
        ((user : Bytes) → Found decode credentials header user → ⊥)
        → (user : Bytes) → IsVerified decode credentials header user
        → ⊥
    unverified refuted user v = refuted user (IsVerified-Found decode credentials header user v)

    -- what is found is what is looked at
    found_parts :
        (text : Bytes) (p : Bytes × Bytes)
        → decode (drop 6 header) ≡ some text
        → cut 58 text ≡ some p
        → (user other password : Bytes) → decode (drop 6 header) ≡ some other
        → cut 58 other ≡ some (user, password)
        → p ≡ (user, password)
    found_parts text p g i user other password decoded parts = cc

    other_user :
        (text : Bytes) (p : Bytes × Bytes)
        → decode (drop 6 header) ≡ some text
        → cut 58 text ≡ some p
        → (user other password : Bytes) → decode (drop 6 header) ≡ some other
        → cut 58 other ≡ some (user, password)
        → lookup user credentials ≡ some password
        → lookup p.0 credentials ≡ none
        → ⊥
    other_user text p g i user other password decoded parts configured j =
        let named =
          ap (λ q. lookup q.0 credentials)
            (found_parts text p g i user other password decoded parts) in
        cc

    wrong_password :
        (text : Bytes) (p : Bytes × Bytes)
        → decode (drop 6 header) ≡ some text
        → cut 58 text ≡ some p
        → (user other password : Bytes) → decode (drop 6 header) ≡ some other
        → cut 58 other ≡ some (user, password)
        → lookup user credentials ≡ some password
        → (valid : Bytes) → lookup p.0 credentials ≡ some valid
        → (valid == p.1) ≡ false
        → ⊥
    wrong_password text p g i user other password decoded parts configured valid j k =
        let same_parts = found_parts text p g i user other password decoded parts in
        let named : lookup p.0 credentials ≡ lookup user credentials =
          ap (λ q. lookup q.0 credentials) same_parts in
        let given : p.1 ≡ password = ap (λ q. q.1) same_parts in
        let valid_is : valid ≡ password = cc in
        let equal : (valid == p.1) ≡ true = ap₂ (λ x y. x == y) valid_is given ∙ ==_refl password in
        cc
