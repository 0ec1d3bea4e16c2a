-- ===== src/Http/Role.antt =====
-- pkg/httputil/postgres.go, and authz.go and postgres.go of pkg/httputil/middleware: under which role
-- a request meets PostgreSQL. The pool, json.Marshal, the environment and the answer to a statement
-- are parameters; a connection is a number. Authorization by OIDC is any other AuthzFunc.
use pigo.Base.{
  ℕ, Bool, true, false, not, Option, none, some, List, [], ◌∷◌, ◌++◌, if◌then◌else◌, is_empty, inl,
  inr, ◌⊎◌, eqb,
}
use pigo.Base.Bytes.{Bytes, codes}
use pigo.Base.Json.{Value, text}
use pigo.Base.Maps.{StringMap}
pub mod Chosen

-- what the request's context holds under the keys of pkg/httputil, none where it holds nothing or a
-- value of another type; a nil map of claims is none
pub record Context : Type 0 where
  pub oidc_user : Option (StringMap Value)
  pub basic_user : Option Bytes
  pub role : Option Bytes
  pub conn : Option ℕ

pub record AuthzResponse : Type 0 where
  pub role : Bytes
  pub allowed : Bool

-- none where it returns an error
abbrev pub AuthzFunc : Type 0
AuthzFunc = Context → Option AuthzResponse

pub record Session : Type 0 where
  -- PIGO_POSTGRES_ANON_ROLE, "" where it is not set, and PIGO_POSTGRES_OIDC_REQUEST_JWT_CLAIMS
  pub anon_role : Bytes
  pub claims_name : Option Bytes
  pub marshal : StringMap Value → Option Bytes
  -- the SQLSTATE with which a statement fails
  pub exec : Bytes → Option Bytes

-- what is done with a connection
pub data Action : Type 0 where
  executed : ℕ → Bytes → Action
  released : ℕ → Action

-- a string that is there and not empty, and the string
abbrev pub is_set : Option Bytes → Bool
is_set none = false
is_set (some s) = not (is_empty s)

abbrev pub value_of : Option Bytes → Bytes
value_of none = []
value_of (some s) = s

unfoldable pub conn_user : Context → Option (StringMap Value)
conn_user ctx = elim ctx.oidc_user [
  | some user ↦ some user
  | none ↦
      if is_set ctx.basic_user
      then some (
          (codes "sub", text (value_of ctx.basic_user))
          ∷ (codes "username", text (value_of ctx.basic_user))
          ∷ [])
      else if is_set ctx.role
      then some ((codes "sub", text (codes "anon")) ∷ (codes "role", text (value_of ctx.role)) ∷ [])
      else none
]

-- an error is its SQLSTATE
unfoldable pub conn_of : Context → Bytes ⊎ (StringMap Value × ℕ)
unfolding conn_user
conn_of ctx = elim (conn_user ctx) [
  | none ↦ inl (codes "28000")
  | some user ↦ elim ctx.conn [ none ↦ inl (codes "08003") | some c ↦ inr (user, c) ]
]

unfoldable pub role_of : Session → Context → Option Bytes
role_of session ctx =
    if is_set ctx.role
    then ctx.role
    else if is_set ctx.basic_user
    then ctx.basic_user
    else if is_empty session.anon_role
    then none
    else some session.anon_role

-- strings.ReplaceAll of a single quote by two
unfoldable pub double_quotes : Bytes → Bytes
double_quotes [] = []
double_quotes (c ∷ s) = let rest = double_quotes s in if eqb c 39 then 39 ∷ 39 ∷ rest else c ∷ rest

unfoldable pub role_sql : Session → Bytes → Bytes → Bytes
unfolding double_quotes
role_sql session role claims =
    (codes "SET ROLE " ++ role ++ codes ";")
    ++ codes "SET "
    ++ elim session.claims_name [ none ↦ codes "request.jwt.claims" | some name ↦ name ]
    ++ codes " TO '"
    ++ double_quotes claims
    ++ codes "';"

unfoldable pub conn_with_role : Session → Context → (Bytes ⊎ (StringMap Value × ℕ)) × List Action
unfolding conn_of role_of role_sql
conn_with_role session ctx = elim (conn_of ctx) [
  | inl e ↦ (inl e, [])
  | inr (user, c) ↦ elim (role_of session ctx) [
    | none ↦ (inl (codes "28000"), [])
    | some role ↦ elim (session.marshal user) [
      | none ↦ (inl (codes "28000"), [])
      | some claims ↦
          let sql = role_sql session role claims in
          elim (session.exec sql) [
            | some e ↦ (inl e, executed c sql ∷ released c ∷ [])
            | none ↦ (inr (user, c), executed c sql ∷ [])
          ]
    ]
  ]
]

unfoldable pub with_basic_authz : AuthzFunc
with_basic_authz ctx = elim ctx.basic_user [
  | none ↦ some (record { role = []; allowed = false })
  | some user ↦ some (record { role = user; allowed = true })
]

unfoldable pub with_anon_authz : Bytes → AuthzFunc
with_anon_authz anon_role ctx = some (record { role = anon_role; allowed = true })

-- the loop over the authorizers: the context's role after it, or an error
unfoldable pub authorized : List AuthzFunc → Context → Option (Option Bytes)
authorized [] ctx = some ctx.role
authorized (authorize ∷ rest) ctx = elim (authorize ctx) [
  | none ↦ none
  | some r ↦ if r.allowed then some (some r.role) else authorized rest ctx
]

-- what the middleware does: http.Error with a status, or the next handler with a context
pub data Passage : Type 0 where
  answers : ℕ → Passage
  serves : Context → Passage

unfoldable pub postgres : Option ℕ → List AuthzFunc → Context → Passage
unfolding authorized
postgres acquired authorizers ctx = elim (authorized authorizers ctx) [
  | none ↦ answers 500
  | some none ↦ answers 401
  | some (some role) ↦ elim acquired [
    | none ↦ answers 500
    | some c ↦ serves (record ctx { role = some role; conn = some c })
  ]
]
