-- ===== src/Role/Create.antt =====
-- The CREATE ROLE statement of postgresql_role (postgresql/resource_postgresql_role.go:
-- resourcePostgreSQLRoleCreate up to its first Exec).
use yb_terraform_provider_po.Prelude.{
  String, not, ◌||◌, List, [], ◌∷◌, ◌++◌, is_empty, ◌<>◌, ◌==◌, if◌then◌else◌,
}
use yb_terraform_provider_po.Prelude.Int.{itoa}
use yb_terraform_provider_po.Strings.{to_upper, to_lower, join}
use yb_terraform_provider_po.Postgres.{Pq}
use yb_terraform_provider_po.Features.{Version, feature_supported}
use yb_terraform_provider_po.Features
use yb_terraform_provider_po.Terraform.{ResourceData}
use yb_terraform_provider_po.Quote.{pq_quote_literal}
use yb_terraform_provider_po.Role.Settings.{token}

-- the round of the loop over `stringOpts` for the password
unfoldable pub password_opts : ResourceData → List String
password_opts d =
    let password = d.get_string "password" in
    if not (d.get_ok "password") || password == ""
    then []
    else if to_upper password == "NULL"
    then "PASSWORD NULL" ∷ []
    else (if d.get_bool "encrypted_password" then "ENCRYPTED" else "UNENCRYPTED")
      ∷ ("PASSWORD '" <> pq_quote_literal password <> "'")
      ∷ []

-- the round of that loop for the time until which the password is valid
unfoldable pub valid_until_opts : ResourceData → List String
valid_until_opts d =
    let valid_until = d.get_string "valid_until" in
    if not (d.get_ok "valid_until") || valid_until == ""
    then []
    else if to_lower valid_until == "infinity"
    then "VALID UNTIL 'infinity'" ∷ []
    else ("VALID UNTIL '" <> pq_quote_literal valid_until <> "'") ∷ []

-- boolOpts: the attribute, and the keyword that switches it on
unfoldable pub bool_opts : Version → List (String × String)
bool_opts v =
    ("superuser", "SUPERUSER")
    ∷ ("create_database", "CREATEDB")
    ∷ ("create_role", "CREATEROLE")
    ∷ ("inherit", "INHERIT")
    ∷ ("login", "LOGIN")
    ∷ ((if feature_supported Features.rls v
          then ("bypass_row_level_security", "BYPASSRLS") ∷ []
          else [])
        ++ (if feature_supported Features.replication v
            then ("replication", "REPLICATION") ∷ []
            else []))

-- the loop over `boolOpts`
unfoldable pub bool_tokens : ResourceData → List (String × String) → List String
bool_tokens d [] = []
bool_tokens d ((attribute, keyword) ∷ opts) =
    token (d.get_bool attribute) keyword ∷ bool_tokens d opts

-- createOpts
unfoldable pub create_opts : Version → ResourceData → List String
unfolding password_opts valid_until_opts bool_opts bool_tokens
create_opts v d =
    password_opts d
    ++ (valid_until_opts d
        ++ (("CONNECTION LIMIT " <> itoa (d.get_int "connection_limit"))
            ∷ bool_tokens d (bool_opts v)))

module _ ⦃pq : Pq⦄ where
  unfoldable pub create_role_sql : Version → ResourceData → String
  unfolding create_opts join
  create_role_sql v d =
      let opts = create_opts v d in
      let create_str = join opts " " in
      "CREATE ROLE "
      <> pq.quote_identifier (d.get_string "name")
      <> (if is_empty opts
          then create_str
          else if feature_supported Features.create_role_with v
          then " WITH " <> create_str
          else " " <> create_str)
