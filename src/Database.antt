-- ===== src/Database.antt =====
-- postgresql_database (postgresql/resource_postgresql_database.go): statements outside a transaction, and
-- the temporary membership in the owner. The transaction that only holds the advisory lock on the
-- connected user changes nothing; where the source does not look at the error of its start, and would
-- then use a transaction that is not there, the model returns that error. A `%q` puts a name between
-- double quotes.
pub mod Setters
pub mod Read
pub mod Handlers
pub mod Restored
use yb_terraform_provider_po.Prelude.{
  String, Bool, true, false, not, ◌&&◌, [], ◌∷◌, ◌<>◌, ◌==◌, if◌then◌else◌,
}
use yb_terraform_provider_po.Prelude.Int.{itoa}
use yb_terraform_provider_po.Prelude.Result.{pure, context, when, ◌>>=◌, ◌>>◌}
use yb_terraform_provider_po.Strings.{to_upper}
use yb_terraform_provider_po.Postgres.{Pq, Server}
use yb_terraform_provider_po.Quote.{pq_quote_literal}
use yb_terraform_provider_po.Features.{feature_supported, db_allow_connections, db_is_template}
use yb_terraform_provider_po.Features
use yb_terraform_provider_po.Terraform.{ResourceData}
use yb_terraform_provider_po.Transaction.{
  Client, Connection, Txn, Handler, exec, rolled_back, autocommit, deferring, get_database_username,
}
use yb_terraform_provider_po.Catalog.{pg_lock_role}
use yb_terraform_provider_po.Membership.{grant_role_membership, revoke_role_membership}

-- `%t` and `%v` of a Boolean
abbrev pub bool_text : Bool → String
bool_text b = if b then "true" else "false"

-- the options of createDatabase that take DEFAULT or a value
unfoldable pub default_or : ResourceData → String → String → String → String → String
unfolding to_upper
default_or d attr keyword given missing =
    if d.get_ok attr && to_upper (d.get_string attr) == "DEFAULT"
    then keyword <> "DEFAULT"
    else if d.get_ok attr
    then keyword <> given
    else missing

abbrev pub literal : String → String
literal s = "'" <> pq_quote_literal s <> "' "

module _ ⦃pq : Pq⦄ where
  -- the CREATE DATABASE statement of createDatabase
  unfoldable pub create_database_sql : Connection → ResourceData → String
  unfolding default_or
  create_database_sql c d =
      let name = pq.quote_identifier (d.get_string "name") in
      let colocation : String =
        if d.get_ok "colocation" && d.get_bool "colocation"
        then " WITH COLOCATION = true"
        else "" in
      let owner =
        pq.quote_identifier
          (if d.get_ok "owner" then d.get_string "owner" else get_database_username c.client) in
      let template =
        default_or d "template" " TEMPLATE " (pq.quote_identifier (d.get_string "template"))
          (if d.get_string "template" == "" then " TEMPLATE template0" else "") in
      let encoding =
        default_or d "encoding" " ENCODING " (literal (d.get_string "encoding"))
          (if d.get_string "encoding" == "" then " ENCODING 'UTF8'" else "") in
      let collation =
        default_or d "lc_collate" " LC_COLLATE " (literal (d.get_string "lc_collate")) "" in
      let ctype = default_or d "lc_ctype" " LC_CTYPE " (literal (d.get_string "lc_ctype")) "" in
      let tablespace =
        default_or d "tablespace_name" " TABLESPACE "
          (pq.quote_identifier (d.get_string "tablespace_name")) "" in
      let connections =
        if feature_supported Features.db_allow_connections c.version
        then " ALLOW_CONNECTIONS " <> bool_text (d.get_bool "allow_connections")
        else "" in
      let limit = " CONNECTION LIMIT " <> itoa (d.get_int "connection_limit") in
      let is_template =
        if feature_supported Features.db_is_template c.version
        then " IS_TEMPLATE " <> bool_text (d.get_bool "is_template")
        else "" in
      "CREATE DATABASE " <> name <> colocation <> " OWNER " <> owner <> template <> encoding
      <> collation <> ctype <> tablespace <> connections <> limit <> is_template

  module _ ⦃db : Server⦄ where
    -- the deferred call of revokeRoleMembership, where the membership had to be granted
    unfoldable pub revoke_again : String → String → Bool → Handler (Unit {0})
    revoke_again owner user granted =
        when granted (autocommit (do revoke_role_membership owner user; pure tt))

    -- the steps around an operation that needs the connected user to be a member of the owner, in
    -- createDatabase, resourcePostgreSQLDatabaseDelete and setDBOwner
    unfoldable pub with_owner_granted : Client → String → Handler (Unit {0}) → Handler (Unit {0})
    unfolding revoke_again
    with_owner_granted client owner operation = do
      let user = get_database_username client
      rolled_back client "" (pg_lock_role user)
      granted ← autocommit (grant_role_membership owner user)
      deferring operation (revoke_again owner user granted)

    -- createDatabase
    unfoldable pub create_database : Connection → ResourceData → Handler (Unit {0})
    unfolding create_database_sql
    create_database c d =
        let owner = d.get_string "owner" in
        let create =
          context ("Error creating database \"" <> d.get_string "name" <> "\": ")
            (autocommit (exec (create_database_sql c d) [])) in
        if not (owner == "") then with_owner_granted c.client owner create else create
