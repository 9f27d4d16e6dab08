-- ===== src/Grant/Handlers.antt =====
-- The handlers of postgresql_grant (postgresql/resource_postgresql_grant.go:
-- resourcePostgreSQLGrantRead, -Create, -Update, -Delete). `d` is the resource data for its attributes.
use yb_terraform_provider_po.Prelude.{Bool, true, false, ◌==◌, if◌then◌else◌}
use yb_terraform_provider_po.Prelude.Result.{lift, when, ◌>>=◌, ◌>>◌}
use yb_terraform_provider_po.Postgres.{Pq, Server}
use yb_terraform_provider_po.Terraform.{ResourceData}
use yb_terraform_provider_po.Transaction.{
  Connection, Txn, Handler, transaction, rolled_back, handler_set_id,
}
use yb_terraform_provider_po.Catalog.{pg_lock_role, pg_lock_database}
use yb_terraform_provider_po.Membership.{with_roles_granted}
use yb_terraform_provider_po.Grant.Query.{generate_grant_id}
use yb_terraform_provider_po.Grant.Apply.{
  validate_feature_support, validate_parameters, check_role_db_schema_exists, get_roles_to_grant,
  grant_role_privileges, revoke_role_privileges,
}
use yb_terraform_provider_po.Grant.Read.{read_role_privileges}

module _ ⦃db : Server⦄ where
  -- the locks that the handlers take before they change privileges
  unfoldable pub lock : ResourceData → Txn (Unit {0})
  lock d = do
    pg_lock_role (d.get_string "role")
    when (d.get_string "object_type" == "database") (pg_lock_database (d.get_string "database"))

  -- resourcePostgreSQLGrantRead
  unfoldable pub grant_read : Connection → ResourceData → Handler (Unit {0})
  grant_read c d = do
    lift (validate_feature_support c d)
    exists ← check_role_db_schema_exists c d
    if exists
        then (do
          handler_set_id (generate_grant_id d)
          rolled_back c.client (d.get_string "database") (read_role_privileges d))
        else handler_set_id ""

  module _ ⦃pq : Pq⦄ where
    -- the transaction of resourcePostgreSQLGrantCreateOrUpdate
    unfoldable pub apply : ResourceData → Bool → Txn (Unit {0})
    unfolding lock
    apply d use_previous = do
      lock d
      owners ← get_roles_to_grant d
      with_roles_granted owners (do revoke_role_privileges d use_previous; grant_role_privileges d)

    -- resourcePostgreSQLGrantCreateOrUpdate
    unfoldable pub grant_create_or_update : Connection → ResourceData → Bool → Handler (Unit {0})
    grant_create_or_update c d use_previous = do
      lift (validate_feature_support c d)
      lift (validate_parameters d)
      transaction c.client (d.get_string "database") "could not commit transaction: "
          (apply d use_previous)
      handler_set_id (generate_grant_id d)
      rolled_back c.client (d.get_string "database") (read_role_privileges d)

    unfoldable pub grant_create : Connection → ResourceData → Handler (Unit {0})
    unfolding grant_create_or_update
    grant_create c d = grant_create_or_update c d false

    unfoldable pub grant_update : Connection → ResourceData → Handler (Unit {0})
    unfolding grant_create_or_update
    grant_update c d = grant_create_or_update c d true

    -- the transaction of resourcePostgreSQLGrantDelete
    unfoldable pub withdraw : ResourceData → Txn (Unit {0})
    unfolding lock
    withdraw d = do
      lock d
      owners ← get_roles_to_grant d
      with_roles_granted owners (revoke_role_privileges d false)

    -- resourcePostgreSQLGrantDelete
    unfoldable pub grant_delete : Connection → ResourceData → Handler (Unit {0})
    grant_delete c d = do
      lift (validate_feature_support c d)
      transaction c.client (d.get_string "database") "could not commit transaction: " (withdraw d)
