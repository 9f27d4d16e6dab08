-- ===== src/Database/Read.antt =====
-- Reading a database back (postgresql/resource_postgresql_database.go: resourcePostgreSQLDatabaseReadImpl).
use yb_terraform_provider_po.Prelude.{String, Bool, List, [], ◌∷◌, ◌<>◌, ◌==◌, if◌then◌else◌}
use yb_terraform_provider_po.Prelude.Int.{ℤ}
use yb_terraform_provider_po.Prelude.Result.{Result, ok, err, fail, when, ◌>>=◌, ◌>>◌}
use yb_terraform_provider_po.Strings.{join}
use yb_terraform_provider_po.Postgres.{
  Value, Row, Server, row, no_rows, failed, as_bool, scan_error,
}
use yb_terraform_provider_po.Features.{feature_supported, db_allow_connections, db_is_template}
use yb_terraform_provider_po.Features
use yb_terraform_provider_po.Terraform.{ResourceData, Setting}
use yb_terraform_provider_po.Transaction.{
  Connection, Txn, Handler, query_row, set, set_id, get_id, directly, rolled_back, handler_get_id,
}
use yb_terraform_provider_po.Catalog.{required, no_rows_error, db_exists}

-- Scan(&dbName, &ownerName)
abbrev pub as_names : Row → Result (String × String)
as_names (Value.text name ∷ Value.text owner ∷ []) = ok (name, owner)
as_names _ = err scan_error

-- the columns of a database
pub record DatabaseRow : Type 0 where
  pub encoding : String
  pub collation : String
  pub ctype : String
  pub tablespace_name : String
  pub conn_limit : ℤ

abbrev pub as_database : Row → Result DatabaseRow
as_database (Value.text e ∷ Value.text c ∷ Value.text t ∷ Value.text s ∷ Value.int n ∷ []) =
    ok (record { encoding = e; collation = c; ctype = t; tablespace_name = s; conn_limit = n })
as_database _ = err scan_error

unfoldable pub database_query : String → String
database_query columns =
    "SELECT " <> columns
    <> " FROM pg_catalog.pg_database AS d, pg_catalog.pg_tablespace AS ts WHERE d.datname = $1 AND d.dattablespace = ts.oid"

unfoldable pub database_columns : List String
database_columns =
    "pg_catalog.pg_encoding_to_char(d.encoding)" ∷ "d.datcollate" ∷ "d.datctype" ∷ "ts.spcname"
    ∷ "d.datconnlimit" ∷ []

module _ ⦃db : Server⦄ where
  -- the d.Set calls that stand before the properties by version
  unfoldable pub set_database : ResourceData → String → String → DatabaseRow → Txn (Unit {0})
  set_database d name owner r = do
    let template = d.get_string "template"
    set "name" (Setting.text name)
    set "owner" (Setting.text owner)
    set "encoding" (Setting.text r.encoding)
    set "lc_collate" (Setting.text r.collation)
    set "lc_ctype" (Setting.text r.ctype)
    set "tablespace_name" (Setting.text r.tablespace_name)
    set "connection_limit" (Setting.int r.conn_limit)
    set "template" (Setting.text (if template == "" then "template0" else template))

  -- a property that only some versions have
  unfoldable pub read_property :
      Connection → Features.Feature → String → String → String → String → Txn (Unit {0})
  unfolding database_query
  read_property c feature column what attr id = when (feature_supported feature c.version) (do
    answer ← query_row as_bool (database_query column) (Value.text id ∷ [])
    let message : String = "Error reading " <> what <> " property for DATABASE: "
    value ← required (message <> no_rows_error) message answer
    set attr (Setting.bool value))

  -- resourcePostgreSQLDatabaseReadImpl behind its first query
  unfoldable pub read_database :
      Connection → ResourceData → String → String → String → Txn (Unit {0})
  unfolding database_query database_columns join set_database read_property
  read_database c d id name owner = do
    answer ←
        query_row as_database (database_query (join database_columns ", ")) (Value.text id ∷ [])
    elim answer [
      | no_rows ↦ set_id ""
      | failed e ↦ fail ("Error reading database: " <> e)
      | row r ↦ do
        set_database d name owner r
        read_property c Features.db_allow_connections "d.datallowconn" "ALLOW_CONNECTIONS"
            "allow_connections" id
        read_property c Features.db_is_template "d.datistemplate" "IS_TEMPLATE" "is_template" id
    ]

  -- resourcePostgreSQLDatabaseReadImpl
  unfoldable pub database_read_impl : Connection → ResourceData → Txn (Unit {0})
  unfolding read_database
  database_read_impl c d = do
    id ← get_id
    answer ←
        query_row as_names
          "SELECT d.datname, pg_catalog.pg_get_userbyid(d.datdba) from pg_database d WHERE datname=$1"
          (Value.text id ∷ [])
    elim answer [
      | no_rows ↦ set_id ""
      | failed e ↦ fail ("Error reading database: " <> e)
      | row (name, owner) ↦ read_database c d id name owner
    ]

  -- resourcePostgreSQLDatabaseRead
  unfoldable pub database_read : Connection → ResourceData → Handler (Unit {0})
  unfolding database_read_impl
  database_read c d = directly (database_read_impl c d)

  -- resourcePostgreSQLDatabaseExists
  unfoldable pub database_exists : Connection → Handler Bool
  database_exists c = do id ← handler_get_id; rolled_back c.client "" (db_exists id)
