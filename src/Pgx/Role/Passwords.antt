-- ===== src/Pgx/Role/Passwords.antt =====
-- pkg/pgx/role/role.go: what becomes of the password of a role that is read and written.
use pigo.Base.{
  refl, none, List, Bool-cases, inl, is_empty, ◌≡◌, sym, ap, ◌∙◌, inr, Bool, true, false, [], ◌∷◌,
  ◌++◌, arith,
}
use pigo.Base.Bytes.{codes, Bytes}
use pigo.Pgx.Role.{
  Role, scanned, scan_role, get_role, role_statement, alter_password, alter_config_and_password,
  create_or_alter_role, update_role, password_statement, config_statement,
}

-- the statement that sets a password to eight asterisks
abbrev pub masking_statement : (Bytes → Bytes) → Bytes → Bytes
masking_statement sanitize name =
    codes "ALTER ROLE "
    ++ sanitize name
    ++ codes " WITH PASSWORD '"
    ++ codes "********"
    ++ codes "'"

-- the statements of a successful update of a role with a password
password_statement_last :
    (sanitize : Bytes → Bytes) (exec : Bytes → Bool) (role : Role)
    → is_empty role.password ≡ false
    → (update_role sanitize exec role).0 ≡ none
    → (before : List Bytes) × ((update_role sanitize exec role).1
        ≡ before ++ password_statement sanitize exec role ∷ [])
      × (exec (password_statement sanitize exec role) ≡ true)
unfolding update_role create_or_alter_role alter_config_and_password alter_password
password_statement_last sanitize exec role some_password done =
    elim (Bool-cases (exec (role_statement sanitize exec role false))) [
      | inr refused ↦ ground (arith, done, refused)
      | inl taken ↦ elim (Bool-cases (exec (password_statement sanitize exec role))) [
        | inr refused ↦ elim (Bool-cases (is_empty role.config)) [
          | inl plain ↦ ground (arith, done, taken, plain, some_password, refused)
          | inr settings ↦ elim (Bool-cases (exec (config_statement sanitize exec role))) [
            | inl set ↦ ground (arith, done, taken, settings, set, some_password, refused)
            | inr unset ↦ ground (arith, done, taken, settings, unset)
          ]
        ]
        | inl masked ↦ elim (Bool-cases (is_empty role.config)) [
          | inl plain ↦ (
            role_statement sanitize exec role false ∷ [],
            rw (taken, plain, some_password) refl,
            masked,
          )
          | inr settings ↦ elim (Bool-cases (exec (config_statement sanitize exec role))) [
            | inl set ↦ (
              role_statement sanitize exec role false ∷ config_statement sanitize exec role ∷ [],
              rw (taken, settings, set, some_password) refl,
              masked,
            )
            | inr unset ↦ ground (arith, done, taken, settings, unset)
          ]
        ]
      ]
    ]

-- Let Get return a role, and let Update succeed on that role after any change that keeps its name and
-- its password, with or without settings. Then the last statement that Update sent sets the role's
-- password to eight asterisks, and the server took it.
pub written_back_password_is_masked :
    (sanitize : Bytes → Bytes) (exec : Bytes → Bool) (stored read : Role) (change : Role → Role)
    → get_role (scanned stored) ≡ inr read
    → (change read).name ≡ stored.name
    → (change read).password ≡ read.password
    → (update_role sanitize exec (change read)).0 ≡ none
    → (before : List Bytes) × ((update_role sanitize exec (change read)).1
        ≡ before ++ masking_statement sanitize stored.name ∷ [])
      × (exec (masking_statement sanitize stored.name) ≡ true)
unfolding get_role scan_role
written_back_password_is_masked sanitize exec stored read change got named kept done =
    let same : scan_role stored ≡ read = ground arith in
    let masked : (change read).password ≡ codes "********" =
      kept ∙ sym (ap (λ r. r.password) same) in
    let sent : password_statement sanitize exec (change read)
        ≡ masking_statement sanitize stored.name =
      rw (named, masked) refl in
    let (before, statements, taken) =
      password_statement_last sanitize exec (change read) (ap is_empty masked) done in
    (before, statements ∙ ap (λ x. before ++ x ∷ []) sent, ap exec (sym sent) ∙ taken)
