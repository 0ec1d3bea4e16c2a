-- ===== src/Http/Examples.antt =====
-- Tests and witnesses of pkg/httputil.
use pigo.Base.{find}
use pigo.Base.{
  ℕ, ◌+◌, ◌≡◌, refl, arith, Bool, true, Option, none, some, List, [], ◌∷◌, ◌++◌, map, any,
  if◌then◌else◌, ◌⊎◌, ◌-◌,
}
use pigo.Base.Bytes.{Bytes, codes, ◌==◌, lookup, has_prefix, split, contains_byte}
use pigo.Base.Int.{ℤ, pos, pos_part}
use pigo.Base.Maps.{StringMap, assign}
use pigo.Http.Router.{
  Handler, Mux, Router, MuxRules, split_method_pattern, cut, handle, full_pattern, serve_http,
  serve_mux, apply_middleware,
}
use pigo.Http.Router.Chains.{nested, mark, handle_all, router_serves}
use pigo.Http.Cache.{new_cache}
use pigo.Http.Cache.Trace.{
  Call, set_call, get_call, cleanup_call, answers, promised, cache_refines_promise,
}
use pigo.Http.Middleware.{
  Request, Response, CorsOptions, set_header, set_header_if, add_header, allowed_origin,
  cors_headers, get_header, cors, cors_with_options, is_wildcard,
}
use pigo.Http.Middleware.Cors.{credentials_need_listed_origin}
use pigo.Http.Middleware.Credentials.{IsVerified, RunsAs, IsRefused, basic_auth_lem}
use pigo.Http.Role.{Session, Context}
use pigo.Base.Json.{Value, Members, text, array, object, nil, cons, end, member}
use pigo.Http.Jq.{
  jq, jq_keys, path_keys, split_key_and_index, array_under, member_of, value_at, collect,
  add_result, found_values, index_of,
}

-- a multiplexer that takes one pattern for every request, and refuses those that it has, and a handler that leaves its name
abbrev home_only : MuxRules (List Bytes)
home_only = record {
  refuses = λ p ps. any (λ q. q == p) ps;
  selects = λ ps s. find (λ q. q == codes "GET /api/home") ps;
  not_found = λ s. s;
}

abbrev home : Handler (List Bytes)
home s = s ++ codes "home" ∷ []

abbrev api : Router (List Bytes)
api = record { prefix = codes "/api"; middleware = map mark (codes "log" ∷ codes "auth" ∷ []) }

abbrev get_home : Bytes × Bytes
get_home = (codes "GET", codes "/home")

-- a root that registers the same handler before and after
abbrev root : Router (List Bytes)
root = record { prefix = []; middleware = map mark (codes "root" ∷ []) }

abbrev home_mux : Mux (List Bytes)
home_mux =
    (codes "POST /api/home", apply_middleware home api.middleware)
    ∷ (codes "GET /api/home", apply_middleware home api.middleware)
    ∷ (codes "GET /home", apply_middleware home root.middleware)
    ∷ []

all_registered :
    handle_all home_only
      ((root, codes "GET /home", home)
        ∷ (api, codes "GET /home", home)
        ∷ (api, codes "POST /home", home)
        ∷ [])
      []
    ≡ some home_mux
unfolding handle_all handle split_method_pattern cut has_prefix full_pattern ◌==◌
all_registered = refl

router_serves_example :
    (serve_http home_only root home_mux ≡ nested (serve_mux home_only home_mux) root.middleware)
    × (serve_mux home_only home_mux [] ≡ nested home api.middleware [])
unfolding split_method_pattern cut has_prefix full_pattern ◌==◌
router_serves_example =
    router_serves home_only ((root, codes "GET /home", home) ∷ [])
      ((api, codes "POST /home", home) ∷ []) (codes "GET /home") home api root [] home_mux get_home
      [] (λ p ps h. h) refl all_registered refl

-- a value is set, read in time, deleted by a cleanup, and asked for again
abbrev some_calls : List (Call Bool)
some_calls =
    set_call 1 (codes "k") true (pos 5)
    ∷ get_call 6 (codes "k")
    ∷ cleanup_call 7 (λ k. 7) 8
    ∷ get_call 9 (codes "k")
    ∷ []

abbrev later : ℕ → ℤ → ℕ
later t d = t + pos_part d

cache_refines_promise_example :
    answers later some_calls new_cache ≡ promised later some_calls (λ key. none)
cache_refines_promise_example = cache_refines_promise later some_calls (
  omega arith,
  (omega arith, (omega arith, λ key. (omega arith, omega arith), (omega arith, tt))),
)

abbrev origin : Bytes
origin = codes "https://a.b"

abbrev two_origins : CorsOptions
two_origins = record {
  allowed_origins = codes "https://c.d" ∷ origin ∷ [];
  allowed_methods = codes "GET" ∷ [];
  allowed_headers = [];
  exposed_headers = codes "Prefer" ∷ [];
  allow_credentials = true;
  max_age = pos 60;
}

abbrev from_origin : Request
from_origin = record {
  method = codes "GET";
  headers = (codes "Origin", origin ∷ []) ∷ [];
  user = none;
}

abbrev blank : Response
blank = record { headers = []; status = none; body = [] }

with_credentials :
    lookup
      (codes "Access-Control-Allow-Credentials")
      (cors two_origins (λ r w. w) from_origin blank).headers
    ≡ some (codes "true" ∷ [])
unfolding cors lookup ◌==◌ get_header allowed_origin is_wildcard cors_headers set_header
    set_header_if add_header assign
with_credentials = refl

credentials_need_listed_origin_example :
    (two_origins.allow_credentials ≡ true)
    × (any (λ o. o == get_header (codes "Origin") from_origin.headers) two_origins.allowed_origins
        ≡ true)
    × (lookup
          (codes "Access-Control-Allow-Origin")
          (cors two_origins (λ r w. w) from_origin blank).headers
        ≡ some (get_header (codes "Origin") from_origin.headers ∷ []))
unfolding cors_with_options is_wildcard ◌==◌ lookup
credentials_need_listed_origin_example =
    credentials_need_listed_origin two_origins (cors two_origins) from_origin blank refl refl
      (λ e. ground (arith, e, with_credentials))

-- a decoding that knows one text
abbrev decode : Bytes → Option Bytes
decode s = if s == codes "YTpi" then some (codes "a:b") else none

abbrev error : Bytes → ℕ → Response → Response
error message status w = record w { status = some status; body = message }

abbrev signed : Request
signed = record {
  method = codes "GET";
  headers = (codes "Authorization", codes "Basic YTpi" ∷ []) ∷ [];
  user = none;
}

abbrev passwords : StringMap Bytes
passwords = (codes "a", codes "b") ∷ []

basic_auth_lem_example :
    ((user : Bytes) × IsVerified decode passwords
        (get_header (codes "Authorization") signed.headers)
        user
      × RunsAs error decode passwords true signed blank user)
    ⊎ (((user : Bytes)
          → IsVerified decode passwords (get_header (codes "Authorization") signed.headers) user
          → ⊥)
        × IsRefused error decode passwords true signed blank)
basic_auth_lem_example = basic_auth_lem error decode passwords true signed blank

abbrev session : Session
session = record {
  anon_role = codes "anon";
  claims_name = none;
  marshal = λ user. some (codes "{}");
  exec = λ sql. none;
}

-- a request that basic auth has verified
abbrev of_alice : Context
of_alice = record { oidc_user = none; basic_user = some (codes "alice"); role = none; conn = none }

abbrev alice : StringMap Value
alice = (codes "sub", text (codes "alice")) ∷ (codes "username", text (codes "alice")) ∷ []

abbrev alice_sql : Bytes
alice_sql = codes "SET ROLE alice;SET request.jwt.claims TO '{}';"

abbrev claims_of_alice : Members
claims_of_alice =
    member (codes "realm")
      (object (
        member (codes "roles")
          (array (
            cons (object (member (codes "name") (text (codes "admin")) end))
              (cons (object (member (codes "name") (text (codes "staff")) end)) nil)))
          end))
      end

abbrev one_digit : Bytes → Option ℤ
one_digit s = elim s [ [] ↦ none | c ∷ t ↦ some (pos (c - 48)) ]

role_at_index :
    jq one_digit claims_of_alice (codes ".realm.roles[1].name") ≡ some (text (codes "staff"))
unfolding jq jq_keys path_keys split split_key_and_index cut contains_byte array_under member_of
    value_at ◌==◌ index_of
role_at_index = refl

roles_at_wildcard :
    jq one_digit claims_of_alice (codes ".realm.roles[*].name")
    ≡ some (array (cons (text (codes "admin")) (cons (text (codes "staff")) nil)))
unfolding jq jq_keys path_keys split split_key_and_index cut contains_byte array_under member_of
    ◌==◌ collect add_result found_values
roles_at_wildcard = refl
