-- ===== src/DefaultPrivileges/Handlers.antt =====
-- The handlers of postgresql_default_privileges (postgresql/resource_postgresql_default_privileges.go:
-- resourcePostgreSQLDefaultPrivilegesRead, -Create, -Delete).
use yb_terraform_provider_po.Prelude.{[], ◌∷◌, if◌then◌else◌}
use yb_terraform_provider_po.Prelude.Result.{lift, ◌>>=◌, ◌>>◌}
use yb_terraform_provider_po.Postgres.{Pq, Server}
use yb_terraform_provider_po.Terraform.{ResourceData}
use yb_terraform_provider_po.Transaction.{
  Connection, Txn, Handler, transaction, rolled_back, handler_set_id,
}
use yb_terraform_provider_po.Catalog.{pg_lock_role}
use yb_terraform_provider_po.Membership.{with_roles_granted}
use yb_terraform_provider_po.Privileges.{validate_privileges}
use yb_terraform_provider_po.Grant.Apply.{check_role_db_schema_exists}
use yb_terraform_provider_po.DefaultPrivileges.{
  check_schemas_feature, check_create, generate_default_privileges_id,
  grant_role_default_privileges, revoke_role_default_privileges,
}
use yb_terraform_provider_po.DefaultPrivileges.Read.{read_role_default_privileges}

module _ ⦃db : Server⦄ where
  -- resourcePostgreSQLDefaultPrivilegesRead
  unfoldable pub default_privileges_read : Connection → ResourceData → Handler (Unit {0})
  default_privileges_read c d = do
    lift (check_schemas_feature c d)
    exists ← check_role_db_schema_exists c d
    if exists
        then rolled_back c.client (d.get_string "database") (read_role_default_privileges d)
        else handler_set_id ""

  module _ ⦃pq : Pq⦄ where
    -- the transaction of resourcePostgreSQLDefaultPrivilegesCreate
    unfoldable pub replace_privileges : ResourceData → Txn (Unit {0})
    replace_privileges d = do
      pg_lock_role (d.get_string "owner")
      with_roles_granted (d.get_string "owner" ∷ [])
          (do revoke_role_default_privileges d; grant_role_default_privileges d)

    -- resourcePostgreSQLDefaultPrivilegesCreate
    unfoldable pub default_privileges_create : Connection → ResourceData → Handler (Unit {0})
    default_privileges_create c d = do
      lift (check_create c d)
      lift (validate_privileges (d.get_string "object_type") (d.get_list "privileges"))
      transaction c.client (d.get_string "database") "" (replace_privileges d)
      handler_set_id (generate_default_privileges_id d)
      rolled_back c.client (d.get_string "database") (read_role_default_privileges d)

    -- the transaction of resourcePostgreSQLDefaultPrivilegesDelete
    unfoldable pub remove_privileges : ResourceData → Txn (Unit {0})
    remove_privileges d = do
      pg_lock_role (d.get_string "owner")
      with_roles_granted (d.get_string "owner" ∷ []) (revoke_role_default_privileges d)

    -- resourcePostgreSQLDefaultPrivilegesDelete
    unfoldable pub default_privileges_delete : Connection → ResourceData → Handler (Unit {0})
    default_privileges_delete c d = do
      lift (check_schemas_feature c d)
      transaction c.client (d.get_string "database") "" (remove_privileges d)
