-- ===== src/Grant/Read.antt =====
-- Reading the granted privileges back (postgresql/resource_postgresql_grant.go: readRolePrivileges and
-- the functions that it calls). A set of columns is a list without repetitions.
use yb_terraform_provider_po.Prelude.{
  ℕ, String, Bool, not, ◌&&◌, ◌||◌, List, [], ◌∷◌, is_empty, filter, ◌<>◌, ◌==◌, if◌then◌else◌,
}
use yb_terraform_provider_po.Prelude.Result.{Result, ok, err, pure, fail, lift, ◌>>=◌, ◌>>◌}
use yb_terraform_provider_po.Postgres.{Value, Row, Server, as_texts, scan_error}
use yb_terraform_provider_po.Terraform.{ResourceData, Setting}
use yb_terraform_provider_po.Transaction.{Txn, query, query_row, set}
use yb_terraform_provider_po.Catalog.{required, no_rows_error, get_role_oid}
use yb_terraform_provider_po.Slices.{slice_contains_str}
use yb_terraform_provider_po.Privileges.{resource_privileges_equal, set_equal}
use yb_terraform_provider_po.Grant.Query.{first}

-- objectTypes, with the empty text for a key that is not in the map
unfoldable pub object_types : String → String
object_types t =
    if t == "table"
    then "r"
    else if t == "sequence"
    then "S"
    else if t == "function"
    then "f"
    else if t == "type"
    then "T"
    else if t == "schema"
    then "n"
    else ""

-- rows.Scan(&objName, &privileges)
abbrev pub as_object : Row → Result (String × List String)
as_object (Value.text name ∷ Value.texts privileges ∷ []) = ok (name, privileges)
as_object (Value.text name ∷ Value.null ∷ []) = ok (name, [])
as_object _ = err scan_error

-- rows.Scan(&objName, &colName, &privileges)
abbrev pub as_column : Row → Result (String × String × List String)
as_column (Value.text name ∷ Value.text column ∷ Value.texts privileges ∷ []) =
    ok (name, column, privileges)
as_column (Value.text name ∷ Value.text column ∷ Value.null ∷ []) = ok (name, column, [])
as_column _ = err scan_error

-- an object that the resource does not name
abbrev pub is_skipped : List String → String → Bool
is_skipped objects name = not (is_empty objects) && not (slice_contains_str objects name)

abbrev pub function_query : String
function_query =
    "SELECT pg_proc.proname, array_remove(array_agg(privilege_type), NULL) FROM pg_proc JOIN pg_namespace ON pg_namespace.oid = pg_proc.pronamespace LEFT JOIN ( select acls.* from ( SELECT proname, pronamespace, (aclexplode(proacl)).* FROM pg_proc ) acls WHERE grantee = $1 ) privs USING (proname, pronamespace) WHERE nspname = $2 GROUP BY pg_proc.proname"

abbrev pub class_query : String
class_query =
    "SELECT pg_class.relname, array_remove(array_agg(privilege_type), NULL) FROM pg_class JOIN pg_namespace ON pg_namespace.oid = pg_class.relnamespace LEFT JOIN ( SELECT acls.* FROM ( SELECT relname, relnamespace, relkind, (aclexplode(relacl)).* FROM pg_class c ) as acls WHERE grantee=$1 ) privs USING (relname, relnamespace, relkind) WHERE nspname = $2 AND relkind = $3 GROUP BY pg_class.relname"

abbrev pub column_query : String
column_query =
    "SELECT relname AS table_name, attname AS column_name, array_agg(privilege_type) AS column_privileges FROM (SELECT relname, attname, (aclexplode(attacl)).* FROM pg_class JOIN pg_namespace ON pg_class.relnamespace = pg_namespace.oid JOIN pg_attribute ON pg_class.oid = attrelid WHERE nspname = $2 AND relname = $3 AND relkind = $4) AS col_privs JOIN pg_roles ON pg_roles.oid = col_privs.grantee WHERE rolname = $1 AND privilege_type = $5 GROUP BY col_privs.relname, col_privs.attname, col_privs.privilege_type ORDER BY col_privs.attname ;"

abbrev pub acl_query : String → String → String
acl_query column rest =
    "SELECT array_agg(privilege_type) FROM ( SELECT (aclexplode(" <> column <> ")).* FROM " <> rest
    <> "=$1 ) as privileges WHERE grantee = $2"

abbrev pub catalog_acl_query : String → String → String
catalog_acl_query column rest =
    "SELECT pg_catalog.array_agg(privilege_type) FROM ( SELECT (pg_catalog.aclexplode(" <> column
    <> ")).* FROM pg_catalog." <> rest <> "=$1 ) as privileges WHERE grantee = $2"

module _ ⦃db : Server⦄ where
  -- the common end of readDatabaseRolePrivileges, readSchemaRolePrivileges,
  -- readForeignDataWrapperRolePrivileges and readForeignServerRolePrivileges
  unfoldable pub read_acl : ResourceData → String → String → String → ℕ → Txn (Unit {0})
  unfolding resource_privileges_equal
  read_acl d sql what name role_oid = do
    answer ← query_row as_texts sql (Value.text name ∷ Value.oid role_oid ∷ [])
    let message : String = "could not read privileges for " <> what <> " " <> name <> ": "
    granted ← required (message <> no_rows_error) message answer
    if resource_privileges_equal granted (d.get_string "object_type") (d.get_list "privileges")
        then pure tt
        else set "privileges" (Setting.texts granted)

  -- the loop of readRolePrivileges over the rows
  unfoldable pub read_objects : ResourceData → List Row → Txn (Unit {0})
  read_objects d [] = pure tt
  read_objects d (r ∷ rows) = elim (as_object r) [
    | err e ↦ fail e
    | ok (name, privileges) ↦
        let rest = read_objects d rows in
        if is_skipped (d.get_list "objects") name
          || resource_privileges_equal privileges (d.get_string "object_type")
              (d.get_list "privileges")
        then rest
        else set "privileges" (Setting.texts privileges)
  ]

  -- the loop of readColumnRolePrivileges, with the columns that no row has shown yet
  unfoldable pub read_columns : ResourceData → List Row → List String → Txn (List String)
  read_columns d [] missing = pure missing
  read_columns d (r ∷ rows) missing = elim (as_column r) [
    | err e ↦ fail e
    | ok (name, column, privileges) ↦
        let skipped = is_skipped (d.get_list "objects") name in
        let missing' = if skipped then missing else filter (λ c. not (c == column)) missing in
        let rest = read_columns d rows missing' in
        if skipped || set_equal privileges (d.get_list "privileges")
        then rest
        else (do set "privileges" (Setting.texts privileges); pure missing')
  ]

  -- readColumnRolePrivileges
  unfoldable pub read_column_role_privileges : ResourceData → Txn (Unit {0})
  unfolding read_columns object_types
  read_column_role_privileges d = do
    object ← lift (first (d.get_list "objects"))
    privilege ← lift (first (d.get_list "privileges"))
    rows ← query column_query (
        Value.text (d.get_string "role")
        ∷ Value.text (d.get_string "schema")
        ∷ Value.text object
        ∷ Value.text (object_types "table")
        ∷ Value.text privilege
        ∷ [])
    missing ← read_columns d rows (d.get_list "columns")
    if is_empty missing
        then pure tt
        else set "columns" (
            Setting.texts (filter (λ c. not (slice_contains_str missing c)) (d.get_list "columns")))

  -- readRolePrivileges
  unfoldable pub read_role_privileges : ResourceData → Txn (Unit {0})
  unfolding object_types
  read_role_privileges d = do
    let t = d.get_string "object_type"
    let schema = Value.text (d.get_string "schema")
    role_oid ← get_role_oid (d.get_string "role")
    if t == "database"
        then read_acl d (acl_query "datacl" "pg_database WHERE datname") "database"
            (d.get_string "database") role_oid
        else if t == "schema"
        then read_acl d (acl_query "nspacl" "pg_namespace WHERE nspname") "schema"
            (d.get_string "schema") role_oid
        else if t == "foreign_data_wrapper"
        then (do
          name ← lift (first (d.get_list "objects"))
          read_acl d (catalog_acl_query "fdwacl" "pg_foreign_data_wrapper WHERE fdwname")
              "foreign data wrapper" name role_oid)
        else if t == "foreign_server"
        then (do
          name ← lift (first (d.get_list "objects"))
          read_acl d (catalog_acl_query "srvacl" "pg_foreign_server WHERE srvname") "foreign server"
              name role_oid)
        else if t == "function" || (t == "procedure" || t == "routine")
        then (do
          rows ← query function_query (Value.oid role_oid ∷ schema ∷ [])
          read_objects d rows)
        else if t == "column"
        then read_column_role_privileges d
        else (do
          rows ← query class_query (Value.oid role_oid ∷ schema ∷ Value.text (object_types t) ∷ [])
          read_objects d rows)
