-- ===== src/Database/Handlers.antt =====
-- The handlers of postgresql_database (postgresql/resource_postgresql_database.go:
-- resourcePostgreSQLDatabaseCreate, -Update, -Delete).
use yb_terraform_provider_po.Prelude.{not, ◌&&◌, ◌<>◌, ◌==◌, false, if◌then◌else◌}
use yb_terraform_provider_po.Prelude.Result.{context, when, ◌>>◌}
use yb_terraform_provider_po.Postgres.{Pq, Server}
use yb_terraform_provider_po.Features.{feature_supported, db_is_template, force_drop_database}
use yb_terraform_provider_po.Features
use yb_terraform_provider_po.Terraform.{ResourceData}
use yb_terraform_provider_po.Transaction.{Connection, Handler, handler_set_id}
use yb_terraform_provider_po.Database.{create_database, with_owner_granted}
use yb_terraform_provider_po.Database.Setters.{
  statement, set_db_name, set_alter_ownership, set_db_owner, set_db_tablespace, set_db_conn_limit,
  set_db_allow_conns, set_db_is_template, do_set_db_is_template, terminate_b_connections,
}
use yb_terraform_provider_po.Database.Read.{database_read}

module _ ⦃db : Server⦄ ⦃pq : Pq⦄ where
  -- resourcePostgreSQLDatabaseCreate
  unfoldable pub database_create : Connection → ResourceData → Handler (Unit {0})
  database_create c d = do
    create_database c d
    handler_set_id (d.get_string "name")
    database_read c d

  -- resourcePostgreSQLDatabaseUpdate
  unfoldable pub database_update : Connection → ResourceData → Handler (Unit {0})
  database_update c d = do
    set_db_name d
    set_alter_ownership c d
    set_db_owner c d
    set_db_tablespace d
    set_db_conn_limit d
    set_db_allow_conns c d
    set_db_is_template c d
    database_read c d

  -- the steps of resourcePostgreSQLDatabaseDelete under the membership in the owner
  unfoldable pub drop_database : Connection → ResourceData → Handler (Unit {0})
  drop_database c d = do
    let name = d.get_string "name"
    when (feature_supported Features.db_is_template c.version && d.get_bool "is_template") (
        context "Error updating database IS_TEMPLATE during DROP DATABASE: "
          (do_set_db_is_template c name false))
    set_db_is_template c d
    terminate_b_connections c name
    statement "Error dropping database: " (
        "DROP DATABASE "
        <> pq.quote_identifier name
        <> " "
        <> (if feature_supported Features.force_drop_database c.version
            then "WITH ( FORCE )"
            else ""))
    handler_set_id ""

  -- resourcePostgreSQLDatabaseDelete
  unfoldable pub database_delete : Connection → ResourceData → Handler (Unit {0})
  unfolding drop_database
  database_delete c d =
      let owner = d.get_string "owner" in
      if not (owner == "")
      then with_owner_granted c.client owner (drop_database c d)
      else drop_database c d
