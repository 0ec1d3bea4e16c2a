-- ===== src/Http/Role/Chosen.antt =====
-- pkg/httputil: the role of a request, from the authorizers to the statement that sets it.
use pigo.Base.{Bool, false, Option, none, some, List, find}
use pigo.Base.Bytes.{Bytes}
use pigo.Http.Role.{Context, AuthzResponse, AuthzFunc}

abbrev pub allows : Context → AuthzFunc → Bool
allows ctx authorize = elim (authorize ctx) [ none ↦ false | some r ↦ r.allowed ]

abbrev pub role_from : Option AuthzResponse → Option Bytes
role_from none = none
role_from (some r) = some r.role

-- the role of the first authorizer that allows the request, or the role that it has
abbrev pub chosen_role : List AuthzFunc → Context → Option Bytes
chosen_role authorizers ctx = elim (find (allows ctx) authorizers) [
  | none ↦ ctx.role
  | some authorize ↦ role_from (authorize ctx)
]
