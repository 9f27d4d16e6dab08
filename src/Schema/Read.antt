-- ===== src/Schema/Read.antt =====
-- Reading a schema back (postgresql/resource_postgresql_schema.go: resourcePostgreSQLSchemaExists,
-- resourcePostgreSQLSchemaReadImpl). The policies that the latter collects are not reported, so only
-- the errors of reading them are seen.
use yb_terraform_provider_po.Prelude.{String, Bool, true, false, List, [], ◌∷◌, ◌<>◌, if◌then◌else◌}
use yb_terraform_provider_po.Prelude.Result.{Result, ok, err, pure, fail, lift, ◌>>=◌, ◌>>◌}
use yb_terraform_provider_po.Postgres.{
  Value, Row, Server, row, no_rows, failed, as_text, scan_error,
}
use yb_terraform_provider_po.Terraform.{ResourceData, Setting}
use yb_terraform_provider_po.Transaction.{
  Connection, Txn, Handler, query_row, set, set_id, rolled_back, directly, handler_get_id,
}
use yb_terraform_provider_po.Catalog.{db_exists}
use yb_terraform_provider_po.Qualified.{qualified_id}
use yb_terraform_provider_po.Schema.{SchemaAcl, Acl, get_db_schema_name, merge_role}

-- Scan(&schemaOwner, pq.Array(&schemaACLs))
abbrev pub as_schema : Row → Result (String × List String)
as_schema (Value.text owner ∷ Value.texts acls ∷ []) = ok (owner, acls)
as_schema _ = err scan_error

-- the loop of resourcePostgreSQLSchemaReadImpl over the aclitems
unfoldable pub read_acls :
    ⦃acl : Acl⦄
    → List String
    → List (String × SchemaAcl acl.Privileges)
    → Result (List (String × SchemaAcl acl.Privileges))
unfolding merge_role
read_acls [] m = ok m
read_acls ⦃acl⦄ (text ∷ texts) m = elim (acl.parse text) [
  | err e ↦ err ("Error parsing aclitem: " <> e)
  | ok item ↦ elim (acl.new_schema item) [
    | err e ↦ err ("invalid perms for schema: " <> e)
    | ok a ↦ read_acls texts (merge_role a m)
  ]
]

module _ ⦃db : Server⦄ where
  -- the transaction of resourcePostgreSQLSchemaReadImpl; the id is that of the database and the name just
  -- set
  unfoldable pub read_schema : ⦃acl : Acl⦄ → String → String → Txn (Unit {0})
  unfolding read_acls
  read_schema database name = do
    answer ←
        query_row as_schema
          "SELECT pg_catalog.pg_get_userbyid(n.nspowner), COALESCE(n.nspacl, '{}'::aclitem[])::TEXT[] FROM pg_catalog.pg_namespace n WHERE n.nspname=$1"
          (Value.text name ∷ [])
    elim answer [
      | no_rows ↦ set_id ""
      | failed e ↦ fail ("Error reading schema: " <> e)
      | row (owner, acls) ↦ do
        lift (read_acls acls [])
        set "name" (Setting.text name)
        set "owner" (Setting.text owner)
        set "database" (Setting.text database)
        set_id (qualified_id database name)
    ]

  -- resourcePostgreSQLSchemaReadImpl
  unfoldable pub schema_read_impl : ⦃acl : Acl⦄ → Connection → ResourceData → Handler (Unit {0})
  schema_read_impl c d = do
    id ← handler_get_id
    names ← lift (get_db_schema_name d id c.client.database_name)
    rolled_back c.client names.0 (read_schema names.0 names.1)

  -- the transaction of resourcePostgreSQLSchemaExists
  unfoldable pub schema_there : String → Txn Bool
  schema_there name = do
    answer ←
        query_row as_text "SELECT n.nspname FROM pg_catalog.pg_namespace n WHERE n.nspname=$1"
          (Value.text name ∷ [])
    elim answer [
      | row _ ↦ pure true
      | no_rows ↦ pure false
      | failed e ↦ fail ("Error reading schema: " <> e)
    ]

  -- resourcePostgreSQLSchemaExists
  unfoldable pub schema_resource_exists : Connection → ResourceData → Handler Bool
  unfolding schema_there
  schema_resource_exists c d = do
    id ← handler_get_id
    names ← lift (get_db_schema_name d id c.client.database_name)
    exists ← directly (db_exists names.0)
    if exists then rolled_back c.client names.0 (schema_there names.1) else pure false
