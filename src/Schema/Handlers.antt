-- ===== src/Schema/Handlers.antt =====
-- The handlers of postgresql_schema (postgresql/resource_postgresql_schema.go:
-- resourcePostgreSQLSchemaCreate, -Read, -Update, -Delete).
use yb_terraform_provider_po.Prelude.{
  String, Bool, true, false, not, ◌&&◌, List, [], ◌∷◌, ◌<>◌, ◌==◌, if◌then◌else◌,
}
use yb_terraform_provider_po.Prelude.Result.{pure, context, ◌>>=◌, ◌>>◌}
use yb_terraform_provider_po.Postgres.{Pq, Server}
use yb_terraform_provider_po.Terraform.{ResourceData}
use yb_terraform_provider_po.Transaction.{
  Connection, Txn, Handler, exec, set_id, transaction, transaction_if, handler_set_id,
}
use yb_terraform_provider_po.Catalog.{get_database_owner, schema_exists}
use yb_terraform_provider_po.Membership.{with_roles_granted}
use yb_terraform_provider_po.GoMap.{Iteration}
use yb_terraform_provider_po.Qualified.{get_database}
use yb_terraform_provider_po.Schema.{Policy, Acl, generate_schema_id}
use yb_terraform_provider_po.Schema.Statements.{
  create_schema, set_schema_name, set_schema_owner, set_schema_policy,
}
use yb_terraform_provider_po.Schema.Read.{schema_read_impl}

abbrev pub database_for : Connection → ResourceData → String
database_for c d = get_database d c.client.database_name

-- rolesToGrant of resourcePostgreSQLSchemaCreate
unfoldable pub creating_roles : ResourceData → String → List String
creating_roles d db_owner =
    let owner = d.get_string "owner" in
    db_owner ∷ (if not (owner == "") && not (owner == db_owner) then owner ∷ [] else [])

module _ ⦃db : Server⦄ ⦃acl : Acl⦄ where
  -- resourcePostgreSQLSchemaRead
  unfoldable pub schema_read : Connection → ResourceData → Handler (Unit {0})
  unfolding schema_read_impl
  schema_read c d = schema_read_impl c d

  module _ ⦃pq : Pq⦄ ⦃it : Iteration⦄ where
    -- the transaction of resourcePostgreSQLSchemaCreate
    unfoldable pub creating_schema : Connection → ResourceData → List Policy → Txn (Unit {0})
    unfolding creating_roles
    creating_schema c d policies = do
      db_owner ← get_database_owner (database_for c d)
      with_roles_granted (creating_roles d db_owner) (create_schema c d policies)

    -- resourcePostgreSQLSchemaCreate
    unfoldable pub schema_create : Connection → ResourceData → List Policy → Handler (Unit {0})
    schema_create c d policies = do
      transaction c.client (database_for c d) "Error committing schema: "
          (creating_schema c d policies)
      handler_set_id (generate_schema_id d (database_for c d))
      schema_read_impl c d

    -- the transaction of resourcePostgreSQLSchemaUpdate
    unfoldable pub updating_schema :
        Connection → ResourceData → List Policy → List Policy → Txn (Unit {0})
    updating_schema c d old_policies policies = do
      set_schema_name d (database_for c d)
      set_schema_owner d
      set_schema_policy d old_policies policies

    -- resourcePostgreSQLSchemaUpdate
    unfoldable pub schema_update :
        Connection → ResourceData → List Policy → List Policy → Handler (Unit {0})
    schema_update c d old_policies policies = do
      transaction c.client (database_for c d) "Error committing schema: "
          (updating_schema c d old_policies policies)
      schema_read_impl c d

module _ ⦃db : Server⦄ ⦃pq : Pq⦄ where
  unfoldable pub drop_schema : ResourceData → Txn (Unit {0})
  drop_schema d = context "Error deleting schema: " (
      exec
        ("DROP SCHEMA "
          <> pq.quote_identifier (d.get_string "name")
          <> " "
          <> (if d.get_bool "drop_cascade" then "CASCADE" else "RESTRICT"))
        [])

  -- the transaction of resourcePostgreSQLSchemaDelete, and whether it comes to the commit
  unfoldable pub deleting_schema : ResourceData → Txn Bool
  unfolding drop_schema
  deleting_schema d = do
    exists ← schema_exists (d.get_string "name")
    if not exists
        then (do set_id ""; pure false)
        else (do with_roles_granted (d.get_string "owner" ∷ []) (drop_schema d); pure true)

  -- resourcePostgreSQLSchemaDelete; behind a return without a commit the id is empty already
  unfoldable pub schema_delete : Connection → ResourceData → Handler (Unit {0})
  schema_delete c d = do
    transaction_if c.client (database_for c d) "Error committing schema: " (deleting_schema d)
    handler_set_id ""
