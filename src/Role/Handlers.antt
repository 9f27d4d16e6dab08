-- ===== src/Role/Handlers.antt =====
-- The handlers of postgresql_role (postgresql/resource_postgresql_role.go:
-- resourcePostgreSQLRoleCreate, -Delete, -Exists, -Read, -Update). `d` is the resource data for its
-- attributes; its id is read where the handler stands.
use yb_terraform_provider_po.Prelude.{String, Bool, not, [], ◌∷◌, ◌<>◌}
use yb_terraform_provider_po.Prelude.Result.{when, context, ◌>>=◌, ◌>>◌}
use yb_terraform_provider_po.Postgres.{Value, Pq, Server}
use yb_terraform_provider_po.Terraform.{ResourceData}
use yb_terraform_provider_po.Transaction.{
  Connection, Txn, Handler, exec, get_id, transaction, directly, handler_set_id,
  get_database_username,
}
use yb_terraform_provider_po.Catalog.{pg_lock_role, row_exists}
use yb_terraform_provider_po.Membership.{with_roles_granted}
use yb_terraform_provider_po.Role.Settings.{
  set_role_name, set_role_password, set_role_bypass_rls, set_role_conn_limit, set_role_create_db,
  set_role_create_role, set_role_inherit, set_role_login, set_role_replication, set_role_superuser,
  set_role_valid_until, revoke_roles, grant_roles, alter_search_path, set_statement_timeout,
  set_idle_in_transaction_session_timeout, set_assume_role,
}
use yb_terraform_provider_po.Role.Create.{create_role_sql}
use yb_terraform_provider_po.Role.Read.{role_read_impl}

module _ ⦃db : Server⦄ where
  -- resourcePostgreSQLRoleExists
  unfoldable pub role_resource_exists : Handler Bool
  role_resource_exists = directly (do
    id ← get_id
    row_exists "" "SELECT rolname FROM pg_catalog.pg_roles WHERE rolname=$1" (Value.text id ∷ []))

  module _ ⦃pq : Pq⦄ where
    -- the steps that resourcePostgreSQLRoleCreate and -Update end their transactions with
    unfoldable pub finish_role : ResourceData → Txn (Unit {0})
    finish_role d = do
      grant_roles d
      alter_search_path d
      set_statement_timeout d
      set_idle_in_transaction_session_timeout d
      set_assume_role d

    -- the transaction of resourcePostgreSQLRoleCreate
    unfoldable pub create_steps : Connection → ResourceData → Txn (Unit {0})
    unfolding finish_role
    create_steps c d = do
      context ("error creating role " <> d.get_string "name" <> ": ")
          (exec (create_role_sql c.version d) [])
      finish_role d

    -- resourcePostgreSQLRoleCreate
    unfoldable pub role_create : (String → String) → Connection → ResourceData → Handler (Unit {0})
    role_create md5_hex c d = do
      transaction c.client "" "could not commit transaction: " (create_steps c d)
      handler_set_id (d.get_string "name")
      directly (role_read_impl md5_hex c d)

    -- the function that resourcePostgreSQLRoleDelete wraps in withRolesGranted
    unfoldable pub drop_owned : Connection → ResourceData → Txn (Unit {0})
    drop_owned c d = do
      let role = d.get_string "name"
      let current_user = get_database_username c.client
      context ("could not reassign owned by role " <> role <> " to " <> current_user <> ": ") (
          exec
            ("REASSIGN OWNED BY "
              <> pq.quote_identifier role
              <> " TO "
              <> pq.quote_identifier current_user)
            [])
      context ("could not drop owned by role " <> role <> ": ")
          (exec ("DROP OWNED BY " <> pq.quote_identifier role) [])

    -- the transaction of resourcePostgreSQLRoleDelete
    unfoldable pub delete_steps : Connection → ResourceData → Txn (Unit {0})
    unfolding drop_owned
    delete_steps c d = do
      let role = d.get_string "name"
      pg_lock_role role
      when (not (d.get_bool "skip_reassign_owned"))
          (with_roles_granted (role ∷ []) (drop_owned c d))
      when (not (d.get_bool "skip_drop_role")) (
          context ("could not delete role " <> role <> ": ")
            (exec ("DROP ROLE " <> pq.quote_identifier role) []))

    -- resourcePostgreSQLRoleDelete
    unfoldable pub role_delete : Connection → ResourceData → Handler (Unit {0})
    role_delete c d = do
      transaction c.client "" "Error committing schema: " (delete_steps c d)
      handler_set_id ""

    -- the attributes that resourcePostgreSQLRoleUpdate changes by one statement each
    unfoldable pub alter_steps : Connection → ResourceData → Txn (Unit {0})
    alter_steps c d = do
      set_role_password d
      set_role_bypass_rls c d
      set_role_conn_limit d
      set_role_create_db d
      set_role_create_role d
      set_role_inherit d
      set_role_login d
      set_role_replication d
      set_role_superuser d
      set_role_valid_until d

    -- the transaction of resourcePostgreSQLRoleUpdate
    unfoldable pub update_steps : Connection → ResourceData → Txn (Unit {0})
    unfolding alter_steps finish_role
    update_steps c d = do
      pg_lock_role (d.old_string "name")
      set_role_name d
      alter_steps c d
      revoke_roles d
      finish_role d

    -- resourcePostgreSQLRoleUpdate
    unfoldable pub role_update : (String → String) → Connection → ResourceData → Handler (Unit {0})
    role_update md5_hex c d = do
      transaction c.client "" "could not commit transaction: " (update_steps c d)
      directly (role_read_impl md5_hex c d)

    -- resourcePostgreSQLRoleRead
    unfoldable pub role_read : (String → String) → Connection → ResourceData → Handler (Unit {0})
    role_read md5_hex c d = directly (role_read_impl md5_hex c d)
