-- ===== src/DefaultPrivileges.antt =====
-- postgresql_default_privileges (postgresql/resource_postgresql_default_privileges.go). `d` is the
-- resource data for its attributes.
pub mod Read
pub mod Handlers
pub mod Report
pub mod Atomic
use yb_terraform_provider_po.Prelude.{
  String, Bool, not, ◌&&◌, List, [], ◌∷◌, is_empty, ◌<>◌, ◌==◌, if◌then◌else◌,
}
use yb_terraform_provider_po.Prelude.Result.{Result, ok, err, pure, context}
use yb_terraform_provider_po.Strings.{join, to_upper, to_lower}
use yb_terraform_provider_po.Postgres.{Pq, Server}
use yb_terraform_provider_po.Features.{feature_supported, privileges_on_schemas}
use yb_terraform_provider_po.Features
use yb_terraform_provider_po.Terraform.{ResourceData}
use yb_terraform_provider_po.Transaction.{Connection, Txn, exec}
use yb_terraform_provider_po.Catalog.{public_role}

-- generateDefaultPrivilegesID
unfoldable pub generate_default_privileges_id : ResourceData → String
generate_default_privileges_id d =
    let schema = d.get_string "schema" in
    join
      (d.get_string "role"
        ∷ d.get_string "database"
        ∷ (if schema == "" then "noschema" else schema)
        ∷ d.get_string "owner"
        ∷ d.get_string "object_type"
        ∷ [])
      "_"

abbrev pub is_on_schemas : ResourceData → Bool
is_on_schemas d = not (d.get_string "schema" == "") && d.get_string "object_type" == "schema"

-- the check at the head of the handlers that read and delete
unfoldable pub check_schemas_feature : Connection → ResourceData → Result (Unit {0})
check_schemas_feature c d =
    if is_on_schemas d && not (feature_supported Features.privileges_on_schemas c.version)
    then err "changing default privileges for schemas is not supported for this Postgres version"
    else ok tt

-- the checks at the head of resourcePostgreSQLDefaultPrivilegesCreate before validatePrivileges
unfoldable pub check_create : Connection → ResourceData → Result (Unit {0})
check_create c d =
    if is_on_schemas d
    then (if not (feature_supported Features.privileges_on_schemas c.version)
        then err
            "changing default privileges for schemas is not supported for this Postgres version"
        else err "cannot specify `schema` when `object_type` is `schema`")
    else if d.get_bool "with_grant_option" && to_lower (d.get_string "role") == public_role
    then err "with_grant_option cannot be true for role 'public'"
    else ok tt

module _ ⦃pq : Pq⦄ where
  abbrev pub in_schema : ResourceData → String
  in_schema d =
      let schema = d.get_string "schema" in
      if not (schema == "") then "IN SCHEMA " <> pq.quote_identifier schema else ""

  -- the statement of grantRoleDefaultPrivileges
  unfoldable pub grant_sql : ResourceData → String
  grant_sql d =
      "ALTER DEFAULT PRIVILEGES FOR ROLE "
      <> pq.quote_identifier (d.get_string "owner")
      <> " "
      <> in_schema d
      <> " GRANT "
      <> join (d.get_list "privileges") ","
      <> " ON "
      <> to_upper (d.get_string "object_type")
      <> "S TO "
      <> pq.quote_identifier (d.get_string "role")
      <> (if d.get_bool "with_grant_option" then " WITH GRANT OPTION" else "")

  -- the statement of revokeRoleDefaultPrivileges
  unfoldable pub revoke_sql : ResourceData → String
  revoke_sql d =
      "ALTER DEFAULT PRIVILEGES FOR ROLE "
      <> pq.quote_identifier (d.get_string "owner")
      <> " "
      <> in_schema d
      <> " REVOKE ALL ON "
      <> to_upper (d.get_string "object_type")
      <> "S FROM "
      <> pq.quote_identifier (d.get_string "role")

  module _ ⦃db : Server⦄ where
    -- grantRoleDefaultPrivileges
    unfoldable pub grant_role_default_privileges : ResourceData → Txn (Unit {0})
    grant_role_default_privileges d =
        if is_empty (d.get_list "privileges")
        then pure tt
        else context "could not alter default privileges: " (exec (grant_sql d) [])

    -- revokeRoleDefaultPrivileges
    unfoldable pub revoke_role_default_privileges : ResourceData → Txn (Unit {0})
    revoke_role_default_privileges d =
        context "could not revoke default privileges: " (exec (revoke_sql d) [])
