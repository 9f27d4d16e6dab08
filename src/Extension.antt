-- ===== src/Extension.antt =====
-- postgresql_extension (postgresql/resource_postgresql_extension.go).
pub mod Handlers
pub mod Atomic
use yb_terraform_provider_po.Prelude.{
  String, Bool, not, [], ◌∷◌, none, some, ◌<>◌, ◌==◌, if◌then◌else◌,
}
use yb_terraform_provider_po.Prelude.Result.{Result, ok, err, fail, context, when, ◌>>=◌, ◌>>◌}
use yb_terraform_provider_po.Postgres.{Pq, Server}
use yb_terraform_provider_po.Features.{feature_supported, extension}
use yb_terraform_provider_po.Features
use yb_terraform_provider_po.Terraform.{ResourceData}
use yb_terraform_provider_po.Transaction.{Connection, Client, Txn, exec}
use yb_terraform_provider_po.Qualified.{qualified_id, parse_id}

-- getDatabaseForExtension
unfoldable pub get_database_for_extension : ResourceData → String → String
get_database_for_extension d database_name =
    if d.get_ok "database" then d.get_string "database" else database_name

-- generateExtensionID
unfoldable pub generate_extension_id : ResourceData → String → String
generate_extension_id d database_name = qualified_id database_name (d.get_string "name")

-- getDBExtName, where the resource's id is the second argument
unfoldable pub get_db_ext_name : ResourceData → String → Client → Result (String × String)
get_db_ext_name d id client =
    if d.get_string "name" == ""
    then elim (parse_id id) [
      | none ↦ err ("extension ID " <> id <> " has not the expected format 'database.extension'")
      | some names ↦ ok names
    ]
    else ok (get_database_for_extension d client.database_name, d.get_string "name")

-- the check at the head of the handlers
unfoldable pub check_extension_feature : Connection → Result (Unit {0})
check_extension_feature c =
    if not (feature_supported Features.extension c.version)
    then err "postgresql_extension resource is not supported for this Postgres version"
    else ok tt

module _ ⦃pq : Pq⦄ where
  -- the statement of resourcePostgreSQLExtensionCreate
  unfoldable pub create_extension_sql : ResourceData → String
  create_extension_sql d =
      "CREATE EXTENSION IF NOT EXISTS "
      <> pq.quote_identifier (d.get_string "name")
      <> (if d.get_ok "schema"
          then " SCHEMA " <> pq.quote_identifier (d.get_string "schema")
          else "")
      <> (if d.get_ok "version"
          then " VERSION " <> pq.quote_identifier (d.get_string "version")
          else "")
      <> (if d.get_bool "create_cascade" then " CASCADE" else "")

  -- the statement of resourcePostgreSQLExtensionDelete
  unfoldable pub drop_extension_sql : ResourceData → String
  drop_extension_sql d =
      "DROP EXTENSION "
      <> pq.quote_identifier (d.get_string "name")
      <> " "
      <> (if d.get_bool "drop_cascade" then "CASCADE" else "RESTRICT")
      <> " "

  module _ ⦃db : Server⦄ where
    -- setExtSchema
    unfoldable pub set_ext_schema : ResourceData → Txn (Unit {0})
    set_ext_schema d =
        let n = d.get_string "schema" in
        when (d.has_change "schema") (
          if n == ""
          then fail "Error setting extension name to an empty string"
          else context "Error updating extension SCHEMA: " (
              exec
                ("ALTER EXTENSION "
                  <> pq.quote_identifier (d.get_string "name")
                  <> " SET SCHEMA "
                  <> pq.quote_identifier n)
                []))

    -- setExtVersion
    unfoldable pub set_ext_version : ResourceData → Txn (Unit {0})
    set_ext_version d =
        let n = d.get_string "version" in
        when (d.has_change "version") (
          context "Error updating extension version: " (
            exec
              ("ALTER EXTENSION "
                <> pq.quote_identifier (d.get_string "name")
                <> " UPDATE"
                <> (if not (n == "") then " TO " <> pq.quote_identifier n else ""))
              []))
