-- ===== src/Database/Setters.antt =====
-- The steps of an update of a database (postgresql/resource_postgresql_database.go: setDBName, setDBOwner,
-- setAlterOwnership, setDBTablespace, setDBConnLimit, setDBAllowConns, setDBIsTemplate,
-- terminateBConnections).
use yb_terraform_provider_po.Prelude.{
  String, Bool, not, ◌&&◌, ◌||◌, [], Option, none, some, ◌<>◌, ◌==◌, if◌then◌else◌,
}
use yb_terraform_provider_po.Prelude.Int.{itoa}
use yb_terraform_provider_po.Prelude.Result.{ok, err, pure, fail, context, when, ◌>>=◌, ◌>>◌}
use yb_terraform_provider_po.Strings.{to_upper}
use yb_terraform_provider_po.Postgres.{Pq, Server}
use yb_terraform_provider_po.Features.{feature_supported, db_allow_connections, db_is_template, pid}
use yb_terraform_provider_po.Features
use yb_terraform_provider_po.Terraform.{ResourceData}
use yb_terraform_provider_po.Transaction.{
  Client, Connection, Handler, exec, directly, autocommit, deferring, close, start_transaction,
  handler_set_id, get_database_username,
}
use yb_terraform_provider_po.Catalog.{pg_lock_role, get_database_owner}
use yb_terraform_provider_po.Membership.{grant_role_membership}
use yb_terraform_provider_po.Database.{bool_text, with_owner_granted, revoke_again}

module _ ⦃db : Server⦄ ⦃pq : Pq⦄ where
  -- `db.Exec` with a context for its error
  abbrev pub statement : String → String → Handler (Unit {0})
  statement message sql = context message (autocommit (exec sql []))

  abbrev pub alter_database : ResourceData → String → String
  alter_database d rest = "ALTER DATABASE " <> pq.quote_identifier (d.get_string "name") <> rest

  -- setDBName
  unfoldable pub set_db_name : ResourceData → Handler (Unit {0})
  set_db_name d =
      let n = d.get_string "name" in
      when (d.has_change "name") (
        if n == "" then fail "Error setting database name to an empty string" else (do
          statement "Error updating database name: " (
              "ALTER DATABASE "
              <> pq.quote_identifier (d.old_string "name")
              <> " RENAME TO "
              <> pq.quote_identifier n)
          handler_set_id n))

  -- setDBOwner
  unfoldable pub set_db_owner : Connection → ResourceData → Handler (Unit {0})
  set_db_owner c d =
      let owner = d.get_string "owner" in
      when (d.has_change "owner" && not (owner == "")) (
        with_owner_granted c.client owner (
          statement "Error updating database OWNER: "
            (alter_database d (" OWNER TO " <> pq.quote_identifier owner))))

  -- setDBTablespace
  unfoldable pub set_db_tablespace : ResourceData → Handler (Unit {0})
  unfolding to_upper
  set_db_tablespace d =
      let name = d.get_string "tablespace_name" in
      when (d.has_change "tablespace_name") (
        statement "Error updating database TABLESPACE: " (
          alter_database d (
            if name == "" || to_upper name == "DEFAULT"
            then " RESET TABLESPACE"
            else " SET TABLESPACE " <> pq.quote_identifier name)))

  -- setDBConnLimit
  unfoldable pub set_db_conn_limit : ResourceData → Handler (Unit {0})
  set_db_conn_limit d = when (d.has_change "connection_limit") (
      statement "Error updating database CONNECTION LIMIT: "
        (alter_database d (" CONNECTION LIMIT = " <> itoa (d.get_int "connection_limit"))))

  -- setDBAllowConns
  unfoldable pub set_db_allow_conns : Connection → ResourceData → Handler (Unit {0})
  set_db_allow_conns c d = when (d.has_change "allow_connections") (
      if not (feature_supported Features.db_allow_connections c.version)
      then fail
          "PostgreSQL client is talking with a server that does not support database ALLOW_CONNECTIONS"
      else statement "Error updating database ALLOW_CONNECTIONS: "
          (alter_database d (" ALLOW_CONNECTIONS " <> bool_text (d.get_bool "allow_connections"))))

  -- doSetDBIsTemplate
  unfoldable pub do_set_db_is_template : Connection → String → Bool → Handler (Unit {0})
  do_set_db_is_template c db_name is_template =
      if not (feature_supported Features.db_is_template c.version)
      then fail
          "PostgreSQL client is talking with a server that does not support database IS_TEMPLATE"
      else statement "Error updating database IS_TEMPLATE: " (
          "ALTER DATABASE "
          <> pq.quote_identifier db_name
          <> " IS_TEMPLATE "
          <> bool_text is_template)

  -- setDBIsTemplate
  unfoldable pub set_db_is_template : Connection → ResourceData → Handler (Unit {0})
  unfolding do_set_db_is_template
  set_db_is_template c d = when (d.has_change "is_template") (
      context "Error updating database IS_TEMPLATE: "
        (do_set_db_is_template c (d.get_string "name") (d.get_bool "is_template")))

  -- terminateBConnections
  unfoldable pub terminate_b_connections : Connection → String → Handler (Unit {0})
  terminate_b_connections c db_name = do
    let pid : String = if feature_supported Features.pid c.version then "pid" else "procpid"
    when (feature_supported Features.db_allow_connections c.version) (
        statement "Error blocking connections to database: "
          ("ALTER DATABASE " <> pq.quote_identifier db_name <> " ALLOW_CONNECTIONS false"))
    statement "Error terminating database connections: " (
        "SELECT pg_terminate_backend(" <> pid <> ") FROM pg_stat_activity WHERE datname = '"
        <> db_name <> "' AND " <> pid <> " <> pg_backend_pid()")

  -- the part of setAlterOwnership on the connection: the old owner, if it is another, and whether a
  -- membership in it had to be granted
  unfoldable pub owner_to_reassign : Client → ResourceData → Handler (Option (String × Bool))
  owner_to_reassign client d = do
    current ←
        context "Error getting current database OWNER: "
          (directly (get_database_owner (d.get_string "name")))
    if current == d.get_string "owner" then pure none else (do
      granted ← autocommit (grant_role_membership current (get_database_username client))
      pure (some (current, granted)))

  -- the end of setAlterOwnership, in the open transaction, with the deferred call
  unfoldable pub reassign :
      Client → ResourceData → db.Session → Option (String × Bool) → Handler (Unit {0})
  unfolding revoke_again
  reassign client d s none m = (ok tt, m)
  reassign client d s (some (current, granted)) m =
      deferring
        (λ k. close "error committing reassign: " k.world (
          context ("Error reassigning objects owned by '" <> current <> "': ")
            (exec
              ("REASSIGN OWNED BY "
                <> pq.quote_identifier current
                <> " TO "
                <> pq.quote_identifier (d.get_string "owner"))
              [])
            (record { session = s; resource = k.resource })))
        (revoke_again current (get_database_username client) granted) m

  -- the transaction of setAlterOwnership
  unfoldable pub reassigning : Client → ResourceData → Handler (Unit {0})
  unfolding reassign owner_to_reassign
  reassigning client d m = elim (start_transaction client (d.get_string "name") m.world) [
    | err e ↦ (err e, m)
    | ok s ↦
        let (r, l) =
          pg_lock_role (get_database_username client)
            (record { session = s; resource = m.resource }) in
        elim r [
          | err e ↦ (err e, record { world = m.world; resource = l.resource })
          | ok _ ↦
              (owner_to_reassign client d >>= λ o. reassign client d l.session o)
                (record { world = m.world; resource = l.resource })
        ]
  ]

  -- setAlterOwnership
  unfoldable pub set_alter_ownership : Connection → ResourceData → Handler (Unit {0})
  unfolding reassigning
  set_alter_ownership c d =
      when
        ((d.has_change "owner" || d.has_change "alter_object_ownership")
          && (not (d.get_string "owner" == "") && d.get_bool "alter_object_ownership"))
        (reassigning c.client d)
