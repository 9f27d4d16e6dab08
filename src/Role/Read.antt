-- ===== src/Role/Read.antt =====
-- Reading a role back (postgresql/resource_postgresql_role.go: resourcePostgreSQLRoleReadImpl and the
-- functions that it calls). The md5 hash in hexadecimal is a parameter.
use yb_terraform_provider_po.Prelude.{
  ℕ, String, Bool, true, false, not, ◌&&◌, ◌||◌, List, [], ◌∷◌, map, ◌<>◌, ◌==◌, if◌then◌else◌,
}
use yb_terraform_provider_po.Prelude.Int.{ℤ, pos, atoi}
use yb_terraform_provider_po.Prelude.Result.{Result, ok, err, pure, fail, lift, wrap, ◌>>=◌, ◌>>◌}
use yb_terraform_provider_po.Strings.{has_prefix, trim_prefix, split, trim}
use yb_terraform_provider_po.Postgres.{
  Value, Row, Server, row, no_rows, failed, as_text, scan_error,
}
use yb_terraform_provider_po.Features.{Version, feature_supported}
use yb_terraform_provider_po.Features
use yb_terraform_provider_po.Terraform.{ResourceData, Setting}
use yb_terraform_provider_po.Transaction.{
  Connection, Txn, query_row, set, set_id, get_id, get_database_username,
}
use yb_terraform_provider_po.Catalog.{connected_is_superuser}

abbrev pub double_quote : ℕ
double_quote = b'"'

-- readSearchPath; `nil` is the empty list
unfoldable pub read_search_path : List String → List String
unfolding has_prefix trim_prefix split trim
read_search_path [] = []
read_search_path (config ∷ role_config) =
    let rest = read_search_path role_config in
    if has_prefix config "search_path"
    then map (λ part. trim part double_quote) (split (trim_prefix config "search_path=") ", ")
    else rest

abbrev pub first_part : List String → String
first_part [] = ""
first_part (p ∷ ps) = p

-- the common form of readIdleInTransactionSessionTimeout and readStatementTimeout
unfoldable pub read_timeout : String → List String → Result ℤ
unfolding has_prefix trim_prefix split
read_timeout attribute [] = ok (pos 0)
read_timeout attribute (config ∷ role_config) =
    let rest = read_timeout attribute role_config in
    if has_prefix config attribute
    then wrap "Error reading statement_timeout: "
        (atoi (first_part (split (trim_prefix config (attribute <> "=")) ", ")))
    else rest

unfoldable pub read_statement_timeout : List String → Result ℤ
unfolding read_timeout
read_statement_timeout = read_timeout "statement_timeout"

unfoldable pub read_idle_in_transaction_session_timeout : List String → Result ℤ
unfolding read_timeout
read_idle_in_transaction_session_timeout = read_timeout "idle_in_transaction_session_timeout"

-- the loop of readAssumeRole: the last entry counts
unfoldable pub last_role : String → List String → String
unfolding has_prefix trim_prefix
last_role res [] = res
last_role res (config ∷ role_config) =
    last_role (if has_prefix config "role" then trim_prefix config "role=" else res) role_config

unfoldable pub read_assume_role : List String → String
unfolding last_role
read_assume_role role_config = last_role "" role_config

-- what the query for a role is scanned into
pub record RoleRow : Type 0 where
  pub roles : List String
  pub name : String
  pub superuser : Bool
  pub inherit : Bool
  pub create_role : Bool
  pub create_db : Bool
  pub can_login : Bool
  pub conn_limit : ℤ
  pub valid_until : String
  pub config : List String
  pub replication : Bool
  pub bypass_rls : Bool

-- the columns that the server's version adds
abbrev pub extra_columns : Bool → Bool → Row → Result (Bool × Bool)
extra_columns true true (Value.bool r ∷ Value.bool b ∷ []) = ok (r, b)
extra_columns true false (Value.bool r ∷ []) = ok (r, false)
extra_columns false true (Value.bool b ∷ []) = ok (false, b)
extra_columns false false [] = ok (false, false)
extra_columns _ _ _ = err scan_error

abbrev pub as_list : Value → Result (List String)
as_list (Value.texts l) = ok l
as_list Value.null = ok []
as_list _ = err scan_error

abbrev pub as_role : Bool → Bool → Row → Result RoleRow
as_role with_replication with_rls
      (Value.texts roles
        ∷ Value.text name
        ∷ Value.bool superuser
        ∷ Value.bool inherit
        ∷ Value.bool create_role
        ∷ Value.bool create_db
        ∷ Value.bool can_login
        ∷ Value.int conn_limit
        ∷ Value.text valid_until
        ∷ config
        ∷ extra) =
    elim (as_list config) [
      | err e ↦ err e
      | ok l ↦ elim (extra_columns with_replication with_rls extra) [
        | err e ↦ err e
        | ok (r, b) ↦ ok (record {
          roles = roles;
          name = name;
          superuser = superuser;
          inherit = inherit;
          create_role = create_role;
          create_db = create_db;
          can_login = can_login;
          conn_limit = conn_limit;
          valid_until = valid_until;
          config = l;
          replication = r;
          bypass_rls = b;
        })
      ]
    ]
as_role _ _ _ = err scan_error

abbrev pub role_query : Bool → Bool → String
role_query with_replication with_rls =
    "SELECT ARRAY( SELECT pg_get_userbyid(roleid) FROM pg_catalog.pg_auth_members members WHERE member = pg_roles.oid ), rolname, rolsuper, rolinherit, rolcreaterole, rolcreatedb, rolcanlogin, rolconnlimit, COALESCE(rolvaliduntil::TEXT, 'infinity'), rolconfig"
    <> (if with_replication then ", rolreplication" else "")
    <> (if with_rls then ", rolbypassrls" else "")
    <> " FROM pg_catalog.pg_roles WHERE rolname=$1"

abbrev pub is_hashed : String → Bool
is_hashed password = has_prefix password "md5" || has_prefix password "SCRAM-SHA-256"

-- the end of readRolePassword: the password of the state or that of pg_shadow
unfoldable pub choose_password : (String → String) → String → String → String → String
unfolding has_prefix
choose_password md5_hex id state_password role_password =
    if not (state_password == "") && not (is_hashed state_password)
    then (if has_prefix role_password "md5"
          && "md5" <> md5_hex (state_password <> id) == role_password
        then state_password
        else if has_prefix role_password "SCRAM-SHA-256"
        then state_password
        else role_password)
    else role_password

module _ ⦃db : Server⦄ where
  -- readRolePassword
  unfoldable pub read_role_password :
      (String → String) → Connection → ResourceData → Bool → Txn String
  unfolding choose_password
  read_role_password md5_hex c d can_login =
      let state_password = d.get_string "password" in
      if not can_login || not c.client.superuser then pure state_password else (do
        superuser ← connected_is_superuser
        if not superuser
            then fail (
                "could not read role password from Postgres as connected user "
                <> get_database_username c.client
                <> " is not a SUPERUSER. You can set `superuser = false` in the provider configuration so it will not try to read the password from Postgres")
            else (do
              id ← get_id
              answer ←
                  query_row as_text
                    "SELECT COALESCE(passwd, '') FROM pg_catalog.pg_shadow AS s WHERE s.usename = $1"
                    (Value.text id ∷ [])
              elim answer [
                | no_rows ↦ pure ""
                | failed e ↦ fail ("Error reading role: " <> e)
                | row role_password ↦ pure (choose_password md5_hex id state_password role_password)
              ]))

  -- the part of resourcePostgreSQLRoleReadImpl behind the query, for a row
  unfoldable pub set_role : (String → String) → Connection → ResourceData → RoleRow → Txn (Unit {0})
  unfolding read_search_path read_assume_role read_statement_timeout
      read_idle_in_transaction_session_timeout
  set_role md5_hex c d r = do
    set "name" (Setting.text r.name)
    set "connection_limit" (Setting.int r.conn_limit)
    set "create_database" (Setting.bool r.create_db)
    set "create_role" (Setting.bool r.create_role)
    set "encrypted_password" (Setting.bool true)
    set "inherit" (Setting.bool r.inherit)
    set "login" (Setting.bool r.can_login)
    set "skip_drop_role" (Setting.bool (d.get_bool "skip_drop_role"))
    set "skip_reassign_owned" (Setting.bool (d.get_bool "skip_reassign_owned"))
    set "superuser" (Setting.bool r.superuser)
    set "valid_until" (Setting.text r.valid_until)
    set "replication" (Setting.bool r.replication)
    set "bypass_row_level_security" (Setting.bool r.bypass_rls)
    set "roles" (Setting.texts r.roles)
    set "search_path" (Setting.texts (read_search_path r.config))
    set "assume_role" (Setting.text (read_assume_role r.config))
    statement_timeout ← lift (read_statement_timeout r.config)
    set "statement_timeout" (Setting.int statement_timeout)
    idle_timeout ← lift (read_idle_in_transaction_session_timeout r.config)
    set "idle_in_transaction_session_timeout" (Setting.int idle_timeout)
    set_id r.name
    password ← read_role_password md5_hex c d r.can_login
    set "password" (Setting.text password)

  -- resourcePostgreSQLRoleReadImpl
  unfoldable pub role_read_impl : (String → String) → Connection → ResourceData → Txn (Unit {0})
  role_read_impl md5_hex c d = do
    let with_replication = feature_supported Features.replication c.version
    let with_rls = feature_supported Features.rls c.version
    id ← get_id
    answer ←
        query_row (as_role with_replication with_rls) (role_query with_replication with_rls)
          (Value.text id ∷ [])
    elim answer [
      | no_rows ↦ set_id ""
      | failed e ↦ fail ("Error reading ROLE: " <> e)
      | row r ↦ set_role md5_hex c d r
    ]
