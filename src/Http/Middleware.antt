-- ===== src/Http/Middleware.antt =====
-- pkg/httputil/middleware/{cors,basic_auth}.go: middleware as functions of the handler they wrap.
-- A request is what the two read of it, a response what they write: headers, status and body.
-- The decoding of base 64 (encoding/base64) and http.Error (net/http) are parameters. The header
-- names here are all in their canonical form.
use pigo.Base.{
  ℕ, Bool, true, false, not, ◌&&◌, ◌||◌, Option, none, some, List, [], ◌∷◌, ◌++◌, if◌then◌else◌,
  is_empty, length, any, drop, ltb,
}
use pigo.Base.Bytes.{Bytes, codes, ◌==◌, lookup, index_map, has_prefix, join, decimal, head_or}
use pigo.Base.Int.{ℤ, is_positive, pos, pos_part}
use pigo.Base.Maps.{StringMap, assign}
use pigo.Http.Router.{cut}
pub mod Cors
pub mod Credentials

pub record Request : Type 0 where
  pub method : Bytes
  pub headers : StringMap (List Bytes)
  -- the context's value under BasicAuthCtxKey
  pub user : Option Bytes

pub record Response : Type 0 where
  pub headers : StringMap (List Bytes)
  pub status : Option ℕ
  pub body : Bytes

-- the handler that a middleware wraps: it goes on from what has been written
abbrev pub Next : Type 0
Next = Request → Response → Response

-- Header.Get, "" where there is none
unfoldable pub get_header : Bytes → StringMap (List Bytes) → Bytes
unfolding lookup
get_header name headers = elim (lookup name headers) [ none ↦ [] | some values ↦ head_or [] values ]

unfoldable pub set_header : Bytes → Bytes → Response → Response
set_header name value w = record w { headers = assign name (value ∷ []) w.headers }

-- a header that is set where an option asks for it
unfoldable pub set_header_if : Bool → Bytes → Bytes → Response → Response
unfolding set_header
set_header_if b name value w = if b then set_header name value w else w

unfoldable pub add_header : Bytes → Bytes → Response → Response
unfolding lookup
add_header name value w = record w {
  headers =
      assign name
        (elim (lookup name w.headers) [ none ↦ value ∷ [] | some values ↦ values ++ value ∷ [] ])
        w.headers;
}

-- ResponseWriter.WriteHeader: the first status counts
unfoldable pub write_header : ℕ → Response → Response
write_header status w = record w {
  status = elim w.status [ none ↦ some status | some first ↦ some first ];
}

pub record CorsOptions : Type 0 where
  pub allowed_origins : List Bytes
  pub allowed_methods : List Bytes
  pub allowed_headers : List Bytes
  pub exposed_headers : List Bytes
  pub allow_credentials : Bool
  pub max_age : ℤ

unfoldable pub default_cors_options : CorsOptions
default_cors_options = record {
  allowed_origins = codes "*" ∷ [];
  allowed_methods =
      codes "GET" ∷ codes "POST" ∷ codes "PUT" ∷ codes "DELETE" ∷ codes "OPTIONS" ∷ [];
  allowed_headers =
      codes "Content-Type"
      ∷ codes "Content-Length"
      ∷ codes "Accept-Encoding"
      ∷ codes "X-CSRF-Token"
      ∷ codes "Authorization"
      ∷ codes "Accept"
      ∷ codes "Origin"
      ∷ codes "Cache-Control"
      ∷ codes "X-Requested-With"
      ∷ [];
  exposed_headers = codes "Content-Range" ∷ codes "Prefer" ∷ [];
  allow_credentials = false;
  max_age = pos 86400;
}

unfoldable pub is_wildcard : List Bytes → Bool
is_wildcard [] = false
is_wildcard (o ∷ []) = o == codes "*"
is_wildcard (o ∷ p ∷ os) = false

-- the origin to answer with, "" for none
unfoldable pub allowed_origin : CorsOptions → Bytes → Bytes
unfolding is_wildcard
allowed_origin options origin =
    if is_wildcard options.allowed_origins
    then codes "*"
    else if any (λ o. o == origin) options.allowed_origins
    then origin
    else []

-- what is written for every request of an allowed origin
unfoldable pub cors_headers : CorsOptions → Bytes → Response → Response
unfolding set_header set_header_if add_header is_wildcard join
cors_headers options allowed w =
    let vary =
      if is_wildcard options.allowed_origins
      then w
      else add_header (codes "Vary") (codes "Origin") w in
    let origin = set_header (codes "Access-Control-Allow-Origin") allowed vary in
    let credentials =
      set_header_if options.allow_credentials (codes "Access-Control-Allow-Credentials")
        (codes "true") origin in
    set_header_if (ltb 0 (length options.exposed_headers)) (codes "Access-Control-Expose-Headers")
      (join (codes ", ") options.exposed_headers) credentials

-- the answer to a preflight request
unfoldable pub preflight : CorsOptions → Response → Response
unfolding set_header_if write_header join decimal
preflight options w =
    let methods =
      set_header_if (ltb 0 (length options.allowed_methods)) (codes "Access-Control-Allow-Methods")
        (join (codes ", ") options.allowed_methods) w in
    let headers =
      set_header_if (ltb 0 (length options.allowed_headers)) (codes "Access-Control-Allow-Headers")
        (join (codes ", ") options.allowed_headers) methods in
    let age =
      set_header_if (is_positive options.max_age) (codes "Access-Control-Max-Age")
        (decimal (pos_part options.max_age)) headers in
    write_header 204 age

unfoldable pub cors : CorsOptions → Next → Next
unfolding get_header allowed_origin cors_headers preflight
cors options next r w =
    let origin = get_header (codes "Origin") r.headers in
    let allowed = allowed_origin options origin in
    if is_empty origin
    then next r w
    else if is_empty allowed
    then next r w
    else if r.method == codes "OPTIONS"
    then preflight options (cors_headers options allowed w)
    else next r (cors_headers options allowed w)

-- none where the code panics; nil options are the default ones
unfoldable pub cors_with_options : Option CorsOptions → Option (Next → Next)
unfolding default_cors_options is_wildcard cors
cors_with_options none = some (cors default_cors_options)
cors_with_options (some options) =
    if is_wildcard options.allowed_origins && options.allow_credentials
    then none
    else some (cors options)

unfoldable pub challenge : Response → Response
unfolding set_header
challenge w = set_header (codes "WWW-Authenticate") (codes "Basic realm=\"Restricted\"") w

-- `send401` holds where no flag is given
unfoldable pub verify_basic_auth :
    (Bytes → ℕ → Response → Response)
    → (Bytes → Option Bytes)
    → StringMap Bytes
    → Bool
    → Next
    → Next
unfolding get_header lookup has_prefix cut challenge
verify_basic_auth error decode credentials send401 next r w =
    let header = get_header (codes "Authorization") r.headers in
    let refuse =
      λ (message : Bytes) (v : Response). if send401 then error message 401 v else next r w in
    if is_empty header
    then refuse (codes "Authorization header missing") (challenge w)
    else if not (has_prefix header (codes "Basic "))
    then refuse (codes "Invalid authorization format") w
    else elim (decode (drop 6 header)) [
      | none ↦ refuse (codes "Invalid base64 encoding") w
      | some text ↦ elim (cut 58 text) [
        | none ↦ refuse (codes "Invalid credentials format") w
        | some p ↦ elim (lookup p.0 credentials) [
          | none ↦ refuse (codes "Invalid credentials") (challenge w)
          | some valid ↦
              if valid == p.1
              then next (record r { user = some p.0 }) w
              else refuse (codes "Invalid credentials") (challenge w)
        ]
      ]
    ]
