-- ===== src/DefaultPrivileges/Read.antt =====
-- Reading default privileges back (postgresql/resource_postgresql_default_privileges.go:
-- readRoleDefaultPrivileges).
use yb_terraform_provider_po.Prelude.{
  ℕ, String, not, ◌&&◌, List, [], ◌∷◌, is_empty, ◌==◌, ◌<>◌, if◌then◌else◌,
}
use yb_terraform_provider_po.Prelude.Result.{when, ◌>>=◌, ◌>>◌}
use yb_terraform_provider_po.Postgres.{Value, Server, as_texts}
use yb_terraform_provider_po.Terraform.{ResourceData, Setting}
use yb_terraform_provider_po.Transaction.{Txn, query_row, set, set_id}
use yb_terraform_provider_po.Catalog.{required, no_rows_error, get_role_oid, pg_lock_role}
use yb_terraform_provider_po.Privileges.{resource_privileges_equal}
use yb_terraform_provider_po.Grant.Read.{object_types}
use yb_terraform_provider_po.DefaultPrivileges.{generate_default_privileges_id}

abbrev pub schema_query : String
schema_query =
    "SELECT array_agg(prtype) FROM ( SELECT defaclnamespace, (aclexplode(defaclacl)).* FROM pg_default_acl WHERE defaclobjtype = $3 ) AS t (namespace, grantor_oid, grantee_oid, prtype, grantable) JOIN pg_namespace ON pg_namespace.oid = namespace WHERE grantee_oid = $1 AND nspname = $2 AND pg_get_userbyid(grantor_oid) = $4;"

abbrev pub global_query : String
global_query =
    "SELECT array_agg(prtype) FROM ( SELECT defaclnamespace, (aclexplode(defaclacl)).* FROM pg_default_acl WHERE defaclobjtype = $2 ) AS t (namespace, grantor_oid, grantee_oid, prtype, grantable) WHERE grantee_oid = $1 AND namespace = 0 AND pg_get_userbyid(grantor_oid) = $3;"

-- the query for the schema of the resource, or for all schemas
abbrev pub default_query : ResourceData → String
default_query d = if not (d.get_string "schema" == "") then schema_query else global_query

-- its arguments
unfoldable pub query_args : ResourceData → ℕ → List Value
unfolding object_types
query_args d role_oid =
    let schema = d.get_string "schema" in
    let kind = Value.text (object_types (d.get_string "object_type")) in
    let owner = Value.text (d.get_string "owner") in
    if not (schema == "")
    then Value.oid role_oid ∷ Value.text schema ∷ kind ∷ owner ∷ []
    else Value.oid role_oid ∷ kind ∷ owner ∷ []

module _ ⦃db : Server⦄ where
  -- what readRoleDefaultPrivileges does with the privileges that it has found
  unfoldable pub report_privileges : ResourceData → List String → Txn (Unit {0})
  report_privileges d granted =
      let wanted = d.get_list "privileges" in
      if is_empty granted && not (is_empty wanted) then set_id "" else (do
        when (not (resource_privileges_equal granted (d.get_string "object_type") wanted))
            (set "privileges" (Setting.texts granted))
        set_id (generate_default_privileges_id d))

  -- readRoleDefaultPrivileges
  unfoldable pub read_role_default_privileges : ResourceData → Txn (Unit {0})
  unfolding report_privileges
  read_role_default_privileges d = do
    pg_lock_role (d.get_string "owner")
    role_oid ← get_role_oid (d.get_string "role")
    answer ← query_row as_texts (default_query d) (query_args d role_oid)
    let message : String = "could not read default privileges: "
    granted ← required (message <> no_rows_error) message answer
    report_privileges d granted
