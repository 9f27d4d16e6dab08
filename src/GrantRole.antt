-- ===== src/GrantRole.antt =====
-- postgresql_grant_role (postgresql/resource_postgresql_grant_role.go): the membership of one role in
-- another. `d` is the resource data for its attributes; the id that reading sets is made of the
-- attributes that it has just set.
pub mod Granted
pub mod Atomic
use yb_terraform_provider_po.Prelude.{String, Bool, true, not, [], ◌∷◌, ◌<>◌, if◌then◌else◌}
use yb_terraform_provider_po.Prelude.Result.{Result, ok, err, fail, pure, context, ◌>>=◌, ◌>>◌}
use yb_terraform_provider_po.Strings.{join}
use yb_terraform_provider_po.Postgres.{Value, Row, Pq, Server, row, no_rows, failed, scan_error}
use yb_terraform_provider_po.Features.{feature_supported}
use yb_terraform_provider_po.Features
use yb_terraform_provider_po.Terraform.{ResourceData, Setting}
use yb_terraform_provider_po.Transaction.{
  Connection, Txn, Handler, exec, query_row, set, set_id, transaction, directly, handler_set_id,
}

abbrev pub get_grant_role_query : String
get_grant_role_query =
    "SELECT pg_get_userbyid(member) as role, pg_get_userbyid(roleid) as grant_role, admin_option FROM pg_auth_members WHERE pg_get_userbyid(member) = $1 AND pg_get_userbyid(roleid) = $2;"

-- strconv.FormatBool
abbrev pub format_bool : Bool → String
format_bool b = if b then "true" else "false"

unfoldable pub grant_role_id : String → String → Bool → String
unfolding join
grant_role_id role granted admin = join (role ∷ granted ∷ format_bool admin ∷ []) "_"

-- generateGrantRoleID
unfoldable pub generate_grant_role_id : ResourceData → String
unfolding grant_role_id
generate_grant_role_id d =
    grant_role_id (d.get_string "role") (d.get_string "grant_role") (d.get_bool "with_admin_option")

-- Scan(&roleName, &grantRoleName, &withAdminOption)
abbrev pub as_grant_role : Row → Result (String × String × Bool)
as_grant_role (Value.text role ∷ Value.text granted ∷ Value.bool admin ∷ []) =
    ok (role, granted, admin)
as_grant_role _ = err scan_error

module _ ⦃pq : Pq⦄ where
  -- createGrantRoleQuery
  unfoldable pub create_grant_role_query : ResourceData → String
  create_grant_role_query d =
      let query =
        "GRANT "
        <> pq.quote_identifier (d.get_string "grant_role")
        <> " TO "
        <> pq.quote_identifier (d.get_string "role") in
      if d.get_bool "with_admin_option" then query <> " WITH ADMIN OPTION" else query

  -- createRevokeRoleQuery
  unfoldable pub create_revoke_role_query : ResourceData → String
  create_revoke_role_query d =
      "REVOKE "
      <> pq.quote_identifier (d.get_string "grant_role")
      <> " FROM "
      <> pq.quote_identifier (d.get_string "role")

module _ ⦃db : Server⦄ where
  -- the check at the head of each handler; the version at the end of the message is left out
  unfoldable pub check_feature : Connection → Handler (Unit {0})
  check_feature c =
      if not (feature_supported Features.privileges c.version)
      then fail "postgresql_grant_role resource is not supported for this Postgres version"
      else pure tt

  -- readGrantRole
  unfoldable pub read_grant_role : ResourceData → Txn (Unit {0})
  unfolding grant_role_id
  read_grant_role d = do
    answer ←
        query_row as_grant_role get_grant_role_query
          (Value.text (d.get_string "role") ∷ Value.text (d.get_string "grant_role") ∷ [])
    elim answer [
      | no_rows ↦ set_id ""
      | failed e ↦ fail ("Error reading grant role: " <> e)
      | row (role, granted, admin) ↦ (do
        set "role" (Setting.text role)
        set "grant_role" (Setting.text granted)
        set "with_admin_option" (Setting.bool admin)
        set_id (grant_role_id role granted admin))
    ]

  -- resourcePostgreSQLGrantRoleRead
  unfoldable pub grant_role_read : Connection → ResourceData → Handler (Unit {0})
  unfolding check_feature
  grant_role_read c d = do check_feature c; directly (read_grant_role d)

  module _ ⦃pq : Pq⦄ where
    -- grantRole
    unfoldable pub grant_role : ResourceData → Txn (Unit {0})
    unfolding create_grant_role_query
    grant_role d = context "could not execute grant query: " (exec (create_grant_role_query d) [])

    -- revokeRole
    unfoldable pub revoke_role : ResourceData → Txn (Unit {0})
    unfolding create_revoke_role_query
    revoke_role d =
        context "could not execute revoke query: " (exec (create_revoke_role_query d) [])

    -- the transaction of resourcePostgreSQLGrantRoleCreate
    unfoldable pub regrant : ResourceData → Txn (Unit {0})
    regrant d = do revoke_role d; grant_role d

    -- resourcePostgreSQLGrantRoleCreate
    unfoldable pub grant_role_create : Connection → ResourceData → Handler (Unit {0})
    unfolding check_feature
    grant_role_create c d = do
      check_feature c
      transaction c.client "" "could not commit transaction: " (regrant d)
      handler_set_id (generate_grant_role_id d)
      directly (read_grant_role d)

    -- resourcePostgreSQLGrantRoleDelete
    unfoldable pub grant_role_delete : Connection → ResourceData → Handler (Unit {0})
    unfolding check_feature
    grant_role_delete c d = do
      check_feature c
      transaction c.client "" "could not commit transaction: " (revoke_role d)
