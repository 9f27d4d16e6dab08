-- ===== src/Grant/Apply.antt =====
-- The steps of the handlers of postgresql_grant (postgresql/resource_postgresql_grant.go):
-- grantRolePrivileges, revokeRolePrivileges, checkRoleDBSchemaExists, getRolesToGrant,
-- validateFeatureSupport, and the checks of the parameters.
use yb_terraform_provider_po.Prelude.{
  String, Bool, true, false, not, ◌&&◌, ◌||◌, List, [], ◌∷◌, ◌++◌, is_empty, length, nat_eq, ◌==◌,
  if◌then◌else◌,
}
use yb_terraform_provider_po.Prelude.Result.{Result, ok, err, pure, lift, context, ◌>>=◌}
use yb_terraform_provider_po.Postgres.{Pq, Server}
use yb_terraform_provider_po.Features.{feature_supported, privileges, procedure, routine}
use yb_terraform_provider_po.Features
use yb_terraform_provider_po.Terraform.{ResourceData}
use yb_terraform_provider_po.Transaction.{Connection, Txn, Handler, exec, rolled_back, directly}
use yb_terraform_provider_po.Catalog.{
  db_exists, role_exists, schema_exists, get_tables_owner, get_schema_owner, resolve_owners,
  public_role,
}
use yb_terraform_provider_po.Slices.{slice_contains_str}
use yb_terraform_provider_po.Privileges.{validate_privileges}
use yb_terraform_provider_po.Grant.Query.{
  current, previous, has_no_schema, create_grant_query, create_revoke_query,
}

-- validateFeatureSupport, with the context that its callers add; the version at the end of each
-- message is left out
unfoldable pub validate_feature_support : Connection → ResourceData → Result (Unit {0})
validate_feature_support c d =
    let t = d.get_string "object_type" in
    if not (feature_supported Features.privileges c.version)
    then err
        "feature is not supported: postgresql_grant resource is not supported for this Postgres version"
    else if t == "procedure" && not (feature_supported Features.procedure c.version)
    then err
        "feature is not supported: object type PROCEDURE is not supported for this Postgres version"
    else if t == "routine" && not (feature_supported Features.routine c.version)
    then err
        "feature is not supported: object type ROUTINE is not supported for this Postgres version"
    else ok tt

abbrev pub is_foreign : String → Bool
is_foreign t = t == "foreign_data_wrapper" || t == "foreign_server"

abbrev pub is_one : List String → Bool
is_one l = nat_eq (length l) 1

-- the parameter checks at the head of resourcePostgreSQLGrantCreateOrUpdate, in their order
unfoldable pub validate_parameters : ResourceData → Result (Unit {0})
validate_parameters d =
    let t = d.get_string "object_type" in
    let objects = d.get_list "objects" in
    let columns = d.get_list "columns" in
    let privileges = d.get_list "privileges" in
    if d.get_string "schema" == "" && not (has_no_schema t)
    then err "parameter 'schema' is mandatory for postgresql_grant resource"
    else if not (is_empty objects) && (t == "database" || t == "schema")
    then err "cannot specify `objects` when `object_type` is `database` or `schema`"
    else if not (is_empty columns) && not (t == "column")
    then err "cannot specify `columns` when `object_type` is not `column`"
    else if is_empty columns && t == "column"
    then err "must specify `columns` when `object_type` is `column`"
    else if not (is_one privileges) && t == "column"
    then err "must specify exactly 1 `privileges` when `object_type` is `column`"
    else if not (is_one objects) && t == "column"
    then err "must specify exactly 1 table in the `objects` field when `object_type` is `column`"
    else if not (is_one objects) && is_foreign t
    then err
        "one element must be specified in `objects` when `object_type` is `foreign_data_wrapper` or `foreign_server`"
    else validate_privileges t privileges

module _ ⦃db : Server⦄ where
  -- the part of checkRoleDBSchemaExists in a transaction on the database
  unfoldable pub role_and_schema_exist : ResourceData → Txn Bool
  role_and_schema_exist d = do
    let role = d.get_string "role"
    role_there ← (if role == public_role then pure true else role_exists role)
    if not role_there then pure false else (do
      let schema = d.get_string "schema"
      if not (has_no_schema (d.get_string "object_type")) && not (schema == "")
          then schema_exists schema
          else pure true)

  -- checkRoleDBSchemaExists
  unfoldable pub check_role_db_schema_exists : Connection → ResourceData → Handler Bool
  check_role_db_schema_exists c d = do
    let database = d.get_string "database"
    exists ← directly (db_exists database)
    if exists then rolled_back c.client database (role_and_schema_exist d) else pure false

  -- getRolesToGrant
  unfoldable pub get_roles_to_grant : ResourceData → Txn (List String)
  get_roles_to_grant d =
      let t = d.get_string "object_type" in
      let schema = d.get_string "schema" in
      if has_no_schema t then pure [] else (do
        owners ← (if t == "schema" then pure [] else get_tables_owner schema)
        schema_owner ← get_schema_owner schema
        resolve_owners (
            if slice_contains_str owners schema_owner then owners else owners ++ schema_owner ∷ []))

  module _ ⦃pq : Pq⦄ where
    -- grantRolePrivileges
    unfoldable pub grant_role_privileges : ResourceData → Txn (Unit {0})
    grant_role_privileges d =
        let privileges = d.get_list "privileges" in
        if is_empty privileges
        then pure tt
        else (do query ← lift (create_grant_query d privileges); exec query [])

    -- revokeRolePrivileges
    unfoldable pub revoke_role_privileges : ResourceData → Bool → Txn (Unit {0})
    revoke_role_privileges d use_previous = do
      query ← lift (create_revoke_query (if use_previous then previous d else current d))
      if query == "" then pure tt else context "could not execute revoke query: " (exec query [])
