-- ===== src/Http/Middleware/Cors.antt =====
-- pkg/httputil/middleware/cors.go: which origins are answered, and with credentials or not.
use pigo.Base.{
  ◌≡◌, refl, Bool, true, false, none, some, [], ◌∷◌, any, if◌then◌else◌, arith, inl, inr,
  Bool-cases, ltb, ◌∙◌, length, is_empty, ◌⊎◌, ap, ◌≢◌,
}
use pigo.Base.Bytes.{Bytes, codes, ◌==◌, lookup, join}
use pigo.Base.Maps.{lookup-assign_ne, lookup-assign_self}
use pigo.Http.Middleware.{
  Request, Response, Next, CorsOptions, set_header, add_header, get_header, write_header,
  is_wildcard, allowed_origin, cors_headers, preflight, cors, cors_with_options, set_header_if,
  is_positive,
}

abbrev allow_origin : Bytes
allow_origin = codes "Access-Control-Allow-Origin"

abbrev credentials_name : Bytes
credentials_name = codes "Access-Control-Allow-Credentials"

lookup-set_header :
    (j k v : Bytes) (w : Response)
    → (j == k) ≡ false
    → lookup k (set_header j v w).headers ≡ lookup k w.headers
unfolding set_header
lookup-set_header j k v w h = lookup-assign_ne j k (v ∷ []) w.headers h

lookup-add_header :
    (j k v : Bytes) (w : Response)
    → (j == k) ≡ false
    → lookup k (add_header j v w).headers ≡ lookup k w.headers
unfolding add_header
lookup-add_header j k v w h = lookup-assign_ne j k _ w.headers h

lookup-set_header_if :
    (b : Bool) (j k v : Bytes) (w : Response)
    → (j == k) ≡ false
    → lookup k (set_header_if b j v w).headers ≡ lookup k w.headers
unfolding set_header_if
lookup-set_header_if true j k v w h = lookup-set_header j k v w h
lookup-set_header_if false j k v w h = refl

not_set : (b : Bool) (j v : Bytes) (w : Response) → b ≡ false → set_header_if b j v w ≡ w
unfolding set_header_if
not_set b j v w h = rw h refl

lookup-preflight :
    (options : CorsOptions) (k : Bytes) (w : Response)
    → (codes "Access-Control-Allow-Methods" == k) ≡ false
    → (codes "Access-Control-Allow-Headers" == k) ≡ false
    → (codes "Access-Control-Max-Age" == k) ≡ false
    → lookup k (preflight options w).headers ≡ lookup k w.headers
unfolding preflight write_header
lookup-preflight options k w a b c =
    lookup-set_header_if (is_positive options.max_age) _ k _ _ c
    ∙ lookup-set_header_if (ltb 0 (length options.allowed_headers)) _ k _ _ b
    ∙ lookup-set_header_if (ltb 0 (length options.allowed_methods)) _ k _ w a

-- Access-Control-Allow-Origin is the origin allowed.
cors_headers-origin :
    (options : CorsOptions) (allowed : Bytes) (w : Response)
    → lookup allow_origin (cors_headers options allowed w).headers ≡ some (allowed ∷ [])
unfolding cors_headers set_header ◌==◌
cors_headers-origin options allowed w =
    lookup-set_header_if (ltb 0 (length options.exposed_headers)) _ allow_origin _ _ refl
    ∙ lookup-set_header_if options.allow_credentials _ allow_origin _ _ refl
    ∙ lookup-assign_self allow_origin (allowed ∷ []) _

-- Access-Control-Allow-Credentials is written only when the options allow it.
cors_headers-credentials :
    (options : CorsOptions) (allowed : Bytes) (w : Response)
    → options.allow_credentials ≡ false
    → lookup credentials_name (cors_headers options allowed w).headers
      ≡ lookup credentials_name w.headers
unfolding cors_headers set_header_if ◌==◌
cors_headers-credentials options allowed w h =
    let start : Response =
      if is_wildcard options.allowed_origins
      then w
      else add_header (codes "Vary") (codes "Origin") w in
    let origin : Response = set_header allow_origin allowed start in
    let credentials : Response =
      set_header_if options.allow_credentials credentials_name (codes "true") origin in
    lookup-set_header_if (ltb 0 (length options.exposed_headers))
      (codes "Access-Control-Expose-Headers") credentials_name
      (join (codes ", ") options.exposed_headers) credentials refl
    ∙ ap (λ (v : Response). lookup credentials_name v.headers)
        (not_set options.allow_credentials credentials_name (codes "true") origin h)
    ∙ lookup-set_header allow_origin credentials_name allowed start refl
    ∙ vary (is_wildcard options.allowed_origins)
  where
    vary :
        (b : Bool)
        → lookup credentials_name
            (if b then w else add_header (codes "Vary") (codes "Origin") w).headers
          ≡ lookup credentials_name w.headers
    vary true = refl
    vary false = lookup-add_header (codes "Vary") credentials_name (codes "Origin") w refl

-- the handler that writes nothing
abbrev silent : Next
silent r w = w

-- the response to an allowed origin
abbrev answered : CorsOptions → Request → Bytes → Response → Response
answered options r allowed w =
    if r.method == codes "OPTIONS"
    then preflight options (cors_headers options allowed w)
    else cors_headers options allowed w

lookup-answered :
    (options : CorsOptions) (r : Request) (allowed k : Bytes) (w : Response)
    → (codes "Access-Control-Allow-Methods" == k) ≡ false
    → (codes "Access-Control-Allow-Headers" == k) ≡ false
    → (codes "Access-Control-Max-Age" == k) ≡ false
    → lookup k (answered options r allowed w).headers
      ≡ lookup k (cors_headers options allowed w).headers
lookup-answered options r allowed k w a b c = go (r.method == codes "OPTIONS")
  where
    go :
        (b : Bool)
        → lookup k
            (if b
              then preflight options (cors_headers options allowed w)
              else cors_headers options allowed w).headers
          ≡ lookup k (cors_headers options allowed w).headers
    go true = lookup-preflight options k (cors_headers options allowed w) a b c
    go false = refl

-- no origin, or none that is allowed, and the headers stay; else the origin is answered
cors-cases :
    (options : CorsOptions) (r : Request) (w : Response)
    → (cors options silent r w ≡ w)
      ⊎ ((cors options silent r w
            ≡ answered options r (allowed_origin options (get_header (codes "Origin") r.headers)) w)
          × (is_empty (allowed_origin options (get_header (codes "Origin") r.headers)) ≡ false))
unfolding cors
cors-cases options r w = elim (Bool-cases (is_empty (get_header (codes "Origin") r.headers))) [
  | inl e ↦ inl (rw (cors, e) refl)
  | inr e ↦
      elim (Bool-cases
        (is_empty (allowed_origin options (get_header (codes "Origin") r.headers)))) [
          | inl f ↦ inl (rw (cors, e, f) refl)
          | inr f ↦ inr (rw (cors, e, f) refl, f)
        ]
]

allowed_is_listed :
    (options : CorsOptions) (origin : Bytes)
    → is_wildcard options.allowed_origins ≡ false
    → is_empty (allowed_origin options origin) ≡ false
    → (any (λ o. o == origin) options.allowed_origins ≡ true)
      × (allowed_origin options origin ≡ origin)
unfolding allowed_origin
allowed_is_listed options origin h e = ground (arith, h, e)

middleware_is_cors :
    (options : CorsOptions) (mw : Next → Next)
    → cors_with_options (some options) ≡ some mw
    → cors options ≡ mw
unfolding cors_with_options
middleware_is_cors options mw h = ground (arith, h)

not_wildcard :
    (options : CorsOptions) (mw : Next → Next)
    → cors_with_options (some options) ≡ some mw
    → options.allow_credentials ≡ true
    → is_wildcard options.allowed_origins ≡ false
unfolding cors_with_options
not_wildcard options mw h c = ground (arith, c, h)

-- without credentials in the options none are allowed
cors-no_credentials :
    (options : CorsOptions) (r : Request) (w : Response)
    → options.allow_credentials ≡ false
    → lookup credentials_name (cors options silent r w).headers ≡ lookup credentials_name w.headers
unfolding ◌==◌
cors-no_credentials options r w h = elim (cors-cases options r w) [
  | inl e ↦ ap (λ (v : Response). lookup credentials_name v.headers) e
  | inr (e, f) ↦
      ap (λ (v : Response). lookup credentials_name v.headers) e
      ∙ lookup-answered options r _ credentials_name w refl refl refl
      ∙ cors_headers-credentials options _ w h
]

-- Let the middleware of some options, which the code did not refuse, wrap a handler that writes
-- nothing, and let nothing before it have written Access-Control-Allow-Credentials. If the
-- response carries that header, the request's origin is one of the allowed origins, the options
-- allow credentials, and Access-Control-Allow-Origin is that origin: never the wildcard of the
-- options.
pub credentials_need_listed_origin :
    (options : CorsOptions) (mw : Next → Next) (r : Request) (w : Response)
    → cors_with_options (some options) ≡ some mw
    → lookup credentials_name w.headers ≡ none
    → lookup credentials_name (mw silent r w).headers ≢ none
    → (options.allow_credentials ≡ true)
      × (any (λ o. o == get_header (codes "Origin") r.headers) options.allowed_origins ≡ true)
      × (lookup allow_origin (mw silent r w).headers
          ≡ some (get_header (codes "Origin") r.headers ∷ []))
unfolding ◌==◌
credentials_need_listed_origin options mw r w h clean set =
    rw (← middleware_is_cors options mw h)
      (go (Bool-cases options.allow_credentials) (cors-cases options r w))
  where
    written : lookup credentials_name (cors options silent r w).headers ≢ none
    written e = set (rw (← middleware_is_cors options mw h) e)

    go :
        (options.allow_credentials ≡ true) ⊎ (options.allow_credentials ≡ false)
        → (cors options silent r w ≡ w)
          ⊎ ((cors options silent r w
                ≡ answered options r
                    (allowed_origin options (get_header (codes "Origin") r.headers))
                    w)
              × (is_empty (allowed_origin options (get_header (codes "Origin") r.headers)) ≡ false))
        → (options.allow_credentials ≡ true)
          × (any (λ o. o == get_header (codes "Origin") r.headers) options.allowed_origins ≡ true)
          × (lookup allow_origin (cors options silent r w).headers
              ≡ some (get_header (codes "Origin") r.headers ∷ []))
    go (inr c) e = absurd (written (cors-no_credentials options r w c ∙ clean))
    go (inl c) (inl e) =
        absurd (written (ap (λ (v : Response). lookup credentials_name v.headers) e ∙ clean))
    go (inl c) (inr (e, f)) =
        let (listed, same) = allowed_is_listed options _ (not_wildcard options mw h c) f in
        (
          c,
          listed,
          ap (λ (v : Response). lookup allow_origin v.headers) e
              ∙ lookup-answered options r _ allow_origin w refl refl refl
              ∙ cors_headers-origin options _ w
              ∙ ap (λ o. some (o ∷ [])) same,
        )
