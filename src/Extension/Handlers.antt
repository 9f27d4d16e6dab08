-- ===== src/Extension/Handlers.antt =====
-- The handlers of postgresql_extension (postgresql/resource_postgresql_extension.go).
use yb_terraform_provider_po.Prelude.{String, Bool, true, false, [], ◌∷◌, ◌<>◌, if◌then◌else◌}
use yb_terraform_provider_po.Prelude.Result.{Result, ok, err, pure, fail, lift, ◌>>=◌, ◌>>◌}
use yb_terraform_provider_po.Postgres.{
  Pq, Value, Row, Server, row, no_rows, failed, as_text, scan_error,
}
use yb_terraform_provider_po.Terraform.{ResourceData, Setting}
use yb_terraform_provider_po.Transaction.{
  Connection, Txn, Handler, exec, query_row, set, set_id, transaction, rolled_back, directly,
  handler_get_id, handler_set_id,
}
use yb_terraform_provider_po.Catalog.{db_exists}
use yb_terraform_provider_po.Qualified.{qualified_id}
use yb_terraform_provider_po.Extension.{
  get_database_for_extension, generate_extension_id, get_db_ext_name, check_extension_feature,
  create_extension_sql, drop_extension_sql, set_ext_schema, set_ext_version,
}

-- Scan(&extSchema, &extVersion)
abbrev pub as_extension : Row → Result (String × String)
as_extension (Value.text schema ∷ Value.text version ∷ []) = ok (schema, version)
as_extension _ = err scan_error

abbrev pub extension_database : Connection → ResourceData → String
extension_database c d = get_database_for_extension d c.client.database_name

module _ ⦃db : Server⦄ where
  -- the transaction of resourcePostgreSQLExtensionReadImpl; the id is that of the name just set
  unfoldable pub read_extension : String → String → Txn (Unit {0})
  read_extension database name = do
    answer ←
        query_row as_extension
          "SELECT n.nspname, e.extversion FROM pg_catalog.pg_extension e, pg_catalog.pg_namespace n WHERE n.oid = e.extnamespace AND e.extname = $1"
          (Value.text name ∷ [])
    elim answer [
      | no_rows ↦ set_id ""
      | failed e ↦ fail ("Error reading extension: " <> e)
      | row (schema, version) ↦ do
        set "name" (Setting.text name)
        set "schema" (Setting.text schema)
        set "version" (Setting.text version)
        set "database" (Setting.text database)
        set_id (qualified_id database name)
    ]

  -- resourcePostgreSQLExtensionReadImpl
  unfoldable pub extension_read_impl : Connection → ResourceData → Handler (Unit {0})
  extension_read_impl c d = do
    id ← handler_get_id
    names ← lift (get_db_ext_name d id c.client)
    rolled_back c.client names.0 (read_extension names.0 names.1)

  -- resourcePostgreSQLExtensionRead
  unfoldable pub extension_read : Connection → ResourceData → Handler (Unit {0})
  unfolding extension_read_impl
  extension_read c d = do lift (check_extension_feature c); extension_read_impl c d

  -- the transaction of resourcePostgreSQLExtensionExists
  unfoldable pub extension_there : String → Txn Bool
  extension_there name = do
    answer ←
        query_row as_text "SELECT extname FROM pg_catalog.pg_extension WHERE extname = $1"
          (Value.text name ∷ [])
    elim answer [ row _ ↦ pure true | no_rows ↦ pure false | failed e ↦ fail e ]

  -- resourcePostgreSQLExtensionExists
  unfoldable pub extension_exists : Connection → ResourceData → Handler Bool
  unfolding extension_there
  extension_exists c d = do
    lift (check_extension_feature c)
    id ← handler_get_id
    names ← lift (get_db_ext_name d id c.client)
    exists ← directly (db_exists names.0)
    if exists then rolled_back c.client names.0 (extension_there names.1) else pure false

  module _ ⦃pq : Pq⦄ where
    -- the transaction of resourcePostgreSQLExtensionCreate
    unfoldable pub create_extension : ResourceData → Txn (Unit {0})
    create_extension d = exec (create_extension_sql d) []

    -- resourcePostgreSQLExtensionCreate
    unfoldable pub extension_create : Connection → ResourceData → Handler (Unit {0})
    extension_create c d = do
      lift (check_extension_feature c)
      transaction c.client (extension_database c d) "Error creating extension: "
          (create_extension d)
      handler_set_id (generate_extension_id d (extension_database c d))
      extension_read_impl c d

    -- the transaction of resourcePostgreSQLExtensionUpdate
    unfoldable pub update_extension : ResourceData → Txn (Unit {0})
    update_extension d = do set_ext_schema d; set_ext_version d

    -- resourcePostgreSQLExtensionUpdate
    unfoldable pub extension_update : Connection → ResourceData → Handler (Unit {0})
    extension_update c d = do
      lift (check_extension_feature c)
      transaction c.client (extension_database c d) "Error updating extension: "
          (update_extension d)
      extension_read_impl c d

    -- the transaction of resourcePostgreSQLExtensionDelete
    unfoldable pub drop_extension : ResourceData → Txn (Unit {0})
    drop_extension d = exec (drop_extension_sql d) []

    -- resourcePostgreSQLExtensionDelete
    unfoldable pub extension_delete : Connection → ResourceData → Handler (Unit {0})
    extension_delete c d = do
      lift (check_extension_feature c)
      transaction c.client (extension_database c d) "Error deleting extension: " (drop_extension d)
      handler_set_id ""
