-- ===== src/Pgx/Role.antt =====
-- pkg/pgx/role/role.go: the roles of a database, and the statements that change them. The connection,
-- pgx.Identifier.Sanitize and the form of a time are parameters.
pub mod Passwords
use pigo.Base.{
  if◌then◌else◌, is_empty, ℕ, zero, suc, ◌⊎◌, inl, inr, Bool, true, false, Option, none, some, List,
  [], ◌∷◌, ◌++◌,
}
use pigo.Base.Bytes.{decimal, codes, Bytes, join}
use pigo.Base.Int.{ℤ, pos, negsuc}

pub record Role : Type 0 where
  pub name : Bytes
  pub superuser : Bool
  pub inherit : Bool
  pub create_role : Bool
  pub create_db : Bool
  pub can_login : Bool
  pub replication : Bool
  pub conn_limit : ℤ
  pub password : Bytes
  -- a valid time, as RFC 3339
  pub valid_until : Option Bytes
  pub bypass_rls : Bool
  pub config : List Bytes
  pub oid : ℕ

pub data RoleError : Type 0 where
  not_found not_read not_queried not_changed no_config no_password not_deleted : RoleError

-- what a row of pg_roles scans into; the password is masked
unfoldable pub scan_role : Role → Role
scan_role r = record r { password = codes "********" }

-- The rows of a query, each none where it does not scan, and whether they end in no error.
pub record Rows : Type 0 where
  pub rows : List (Option Role)
  pub complete : Bool

unfoldable pub scan_rows : List (Option Role) → Option (List Role)
unfolding scan_role
scan_rows [] = some []
scan_rows (none ∷ rs) = none
scan_rows (some r ∷ rs) = elim (scan_rows rs) [
  | none ↦ none
  | some roles ↦ some (scan_role r ∷ roles)
]

unfoldable pub list_roles : Option Rows → RoleError ⊎ List Role
unfolding scan_rows
list_roles none = inl not_queried
list_roles (some r) = elim (scan_rows r.rows) [
  | none ↦ inl not_read
  | some roles ↦ if r.complete then inr roles else inl not_read
]

-- what QueryRow and Scan give: a row, none for pgx.ErrNoRows, or another error
pub data Scanned : Type 0 where
  scanned : Role → Scanned
  no_rows failed : Scanned

unfoldable pub get_role : Scanned → RoleError ⊎ Role
unfolding scan_role
get_role (scanned r) = inr (scan_role r)
get_role no_rows = inl not_found
get_role failed = inl not_read

-- " " and the attribute, where its condition holds
abbrev pub attribute : Bool → Bytes → Bytes
attribute condition a = if condition then codes " " ++ a else []

unfoldable pub connection_limit : ℤ → Bytes
unfolding decimal
connection_limit (pos zero) = codes " CONNECTION LIMIT -1"
connection_limit (pos (suc n)) = codes " CONNECTION LIMIT " ++ decimal (suc n)
connection_limit (negsuc zero) = codes " CONNECTION LIMIT -1"
connection_limit (negsuc (suc n)) = []

unfoldable pub role_attributes : Role → Bytes
unfolding connection_limit
role_attributes role =
    attribute role.superuser (codes "SUPERUSER")
    ++ attribute role.replication (codes "REPLICATION")
    ++ attribute role.inherit (codes "INHERIT")
    ++ attribute role.create_role (codes "CREATEROLE")
    ++ attribute role.create_db (codes "CREATEDB")
    ++ attribute role.can_login (codes "LOGIN")
    ++ connection_limit role.conn_limit
    ++ elim role.valid_until [ none ↦ [] | some t ↦ codes " VALID UNTIL '" ++ t ++ codes "'" ]

-- an error, and the statements that were sent, in order
abbrev pub Changed : Type 0
Changed = Option RoleError × List Bytes

module _ (sanitize : Bytes → Bytes) (exec : Bytes → Bool) where
  abbrev pub config_statement : Role → Bytes
  config_statement role =
      codes "ALTER ROLE " ++ sanitize role.name ++ codes " SET " ++ join (codes ", ") role.config

  abbrev pub password_statement : Role → Bytes
  password_statement role =
      codes "ALTER ROLE "
      ++ sanitize role.name
      ++ codes " WITH PASSWORD '"
      ++ role.password
      ++ codes "'"

  -- the password's half of alterRoleConfigAndPassword
  unfoldable pub alter_password : Role → Changed
  alter_password role = if is_empty role.password then (none, []) else (
    (if exec (password_statement role) then none else some no_password),
    password_statement role ∷ [],
  )

  unfoldable pub alter_config_and_password : Role → Changed
  unfolding alter_password join
  alter_config_and_password role =
      if is_empty role.config
      then alter_password role
      else if exec (config_statement role)
      then ((alter_password role).0, config_statement role ∷ (alter_password role).1)
      else (some no_config, config_statement role ∷ [])

  abbrev pub role_statement : Role → Bool → Bytes
  role_statement role is_create =
      (if is_create then codes "CREATE ROLE " else codes "ALTER ROLE ")
      ++ sanitize role.name
      ++ role_attributes role

  unfoldable pub create_or_alter_role : Role → Bool → Changed
  unfolding alter_config_and_password role_attributes
  create_or_alter_role role is_create =
      let statement = role_statement role is_create in
      if exec statement
      then ((alter_config_and_password role).0, statement ∷ (alter_config_and_password role).1)
      else (some not_changed, statement ∷ [])

  unfoldable pub create_role_named : Role → Changed
  unfolding create_or_alter_role
  create_role_named role = create_or_alter_role role true

  unfoldable pub update_role : Role → Changed
  unfolding create_or_alter_role
  update_role role = create_or_alter_role role false

  unfoldable pub delete_role : Bytes → Changed
  delete_role name =
      let statement = codes "DROP ROLE IF EXISTS " ++ sanitize name in
      ((if exec statement then none else some not_deleted), statement ∷ [])
