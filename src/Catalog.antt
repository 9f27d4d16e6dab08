-- ===== src/Catalog.antt =====
-- The catalog queries and advisory locks of postgresql/helpers.go, each in a transaction or on a
-- connection.
pub mod Keeps
use yb_terraform_provider_po.Prelude.{
  ℕ, String, Bool, true, false, List, [], ◌∷◌, ◌++◌, ◌<>◌, ◌==◌, if◌then◌else◌,
}
use yb_terraform_provider_po.Prelude.Result.{
  Result, ok, err, Act, pure, fail, lift, context, ◌>>=◌, ◌>>◌,
}
use yb_terraform_provider_po.Postgres.{
  Value, Row, Server, Scan, row, no_rows, failed, as_any, as_text, as_bool, as_oid,
}
use yb_terraform_provider_po.Transaction.{Txn, exec, query, query_row}

-- the switch on the error of a Scan that asks only whether there is a row
abbrev pub found : {S : Type 0} → String → Scan (Unit {0}) → Act S Bool
found message (row _) = pure true
found message no_rows = pure false
found message (failed e) = fail (message <> e)

-- a switch on the error of a Scan in which a missing row is an error too
abbrev pub required : {S A : Type 0} → String → String → Scan A → Act S A
required missing message (row a) = pure a
required missing message no_rows = fail missing
required missing message (failed e) = fail (message <> e)

abbrev pub public_role : String
public_role = "public"

abbrev pub no_rows_error : String
no_rows_error = "sql: no rows in result set"

module _ ⦃db : Server⦄ where
  -- a QueryRow whose Scan only asks whether there is a row
  unfoldable pub row_exists : String → String → List Value → Txn Bool
  unfolding query_row
  row_exists message sql args = do answer ← query_row as_any sql args; found message answer

  unfoldable pub db_exists : String → Txn Bool
  db_exists dbname =
      row_exists "could not check if database exists: "
        "SELECT datname FROM pg_database WHERE datname=$1" (Value.text dbname ∷ [])

  unfoldable pub role_exists : String → Txn Bool
  role_exists rolname =
      row_exists "could not check if role exists: " "SELECT 1 FROM pg_roles WHERE rolname=$1"
        (Value.text rolname ∷ [])

  unfoldable pub schema_exists : String → Txn Bool
  schema_exists schemaname =
      row_exists "could not check if schema exists: " "SELECT 1 FROM pg_namespace WHERE nspname=$1"
        (Value.text schemaname ∷ [])

  unfoldable pub get_current_user : Txn String
  get_current_user = do
    answer ← query_row as_text "SELECT CURRENT_USER" []
    required "SELECT CURRENT_USER returns now row, this is quite disturbing"
        "error while looking for the current user: " answer

  unfoldable pub is_superuser : String → Txn Bool
  is_superuser role = do
    answer ←
        query_row as_bool "SELECT rolsuper FROM pg_roles WHERE rolname = $1" (Value.text role ∷ [])
    let message : String = "could not check if role " <> role <> " is superuser: "
    required (message <> no_rows_error) message answer

  -- DBConnection.isSuperuser
  unfoldable pub connected_is_superuser : Txn Bool
  connected_is_superuser = do
    answer ← query_row as_bool "SELECT rolsuper FROM pg_roles WHERE rolname = CURRENT_USER" []
    let message : String = "could not check if current user is superuser: "
    required (message <> no_rows_error) message answer

  unfoldable pub get_database_owner : String → Txn String
  get_database_owner database = do
    let current = database == ""
    let argument = if current then "current_database()" else "$1"
    let values : List Value = if current then [] else Value.text database ∷ []
    answer ←
        query_row as_text
          ("SELECT rolname FROM pg_database JOIN pg_roles ON datdba = pg_roles.oid WHERE datname = "
            <> argument)
          values
    required ("could not find database '" <> database <> "' while looking for owner")
        ("error while looking for the owner of database '" <> database <> "': ") answer

  unfoldable pub get_schema_owner : String → Txn String
  get_schema_owner schema_name = do
    answer ←
        query_row as_text
          "SELECT rolname FROM pg_namespace JOIN pg_roles ON nspowner = pg_roles.oid WHERE nspname = $1"
          (Value.text schema_name ∷ [])
    required ("could not find schema '" <> schema_name <> "' while looking for owner")
        ("error while looking for the owner of schema '" <> schema_name <> "': ") answer

  -- the loop over the rows of getTablesOwner
  scan_owners : List Row → List String → Result (List String)
  scan_owners [] owners = ok owners
  scan_owners (r ∷ rs) owners = elim (as_text r) [
    | ok owner ↦ scan_owners rs (owners ++ owner ∷ [])
    | err e ↦ err ("could not scan tables owner: " <> e)
  ]

  unfoldable pub get_tables_owner : String → Txn (List String)
  unfolding scan_owners
  get_tables_owner schema_name = do
    found_rows ←
        context ("error while looking for owners of tables in schema '" <> schema_name <> "': ") (
          query "SELECT DISTINCT tableowner FROM pg_tables WHERE schemaname = $1"
            (Value.text schema_name ∷ []))
    lift (scan_owners found_rows [])

  -- one round of resolveOwners
  resolve_owner : String → Txn String
  resolve_owner owner = if owner == "pg_database_owner" then get_database_owner "" else pure owner

  unfoldable pub resolve_owners : List String → Txn (List String)
  unfolding resolve_owner
  resolve_owners [] = pure []
  resolve_owners (owner ∷ owners) = do
    resolved ← resolve_owner owner
    others ← resolve_owners owners
    pure (resolved ∷ others)

  unfoldable pub get_role_oid : String → Txn ℕ
  get_role_oid role = if role == public_role then pure 0 else (do
    answer ← query_row as_oid "SELECT oid FROM pg_roles WHERE rolname = $1" (Value.text role ∷ [])
    let message : String = "could not find oid for role " <> role <> ": "
    required (message <> no_rows_error) message answer)

  unfoldable pub pg_lock_role : String → Txn (Unit {0})
  pg_lock_role role = do
    context "could not disable statement_timeout: " (exec "SET statement_timeout = 0" [])
    context ("could not get advisory lock for role " <> role <> ": ") (
        exec "SELECT pg_advisory_xact_lock(oid::bigint) FROM pg_roles WHERE rolname = $1"
          (Value.text role ∷ []))
    context ("could not get advisory lock for members of role " <> role <> ": ") (
        exec
          "SELECT pg_advisory_xact_lock(member::bigint) FROM pg_auth_members JOIN pg_roles ON roleid = pg_roles.oid WHERE rolname = $1"
          (Value.text role ∷ []))

  unfoldable pub pg_lock_database : String → Txn (Unit {0})
  pg_lock_database database = do
    context "could not disable statement_timeout: " (exec "SET statement_timeout = 0" [])
    context ("could not get advisory lock for database " <> database <> ": ") (
        exec "SELECT pg_advisory_xact_lock(oid::bigint) FROM pg_database WHERE datname = $1"
          (Value.text database ∷ []))
