-- ===== src/Role/Settings.antt =====
-- The statements of an update of postgresql_role (postgresql/resource_postgresql_role.go: setRoleName
-- to setAssumeRole, revokeRoles, grantRoles, alterSearchPath).
use yb_terraform_provider_po.Prelude.{
  String, Bool, not, ◌&&◌, ◌||◌, List, [], ◌∷◌, is_empty, ◌<>◌, ◌==◌, if◌then◌else◌,
}
use yb_terraform_provider_po.Prelude.Int.{is_zero, itoa}
use yb_terraform_provider_po.Prelude.Result.{
  Result, ok, err, pure, fail, lift, when, context, for_each, ◌>>=◌, ◌>>◌,
}
use yb_terraform_provider_po.Strings.{to_lower, contains, join}
use yb_terraform_provider_po.Postgres.{Value, Row, Pq, Server, as_text}
use yb_terraform_provider_po.Features.{Version, feature_supported, rls}
use yb_terraform_provider_po.Features
use yb_terraform_provider_po.Terraform.{ResourceData}
use yb_terraform_provider_po.Transaction.{Connection, Txn, exec, query, set_id}
use yb_terraform_provider_po.Quote.{pq_quote_literal}

-- the keyword of an option that is on or off
abbrev pub token : Bool → String → String
token on keyword = if on then keyword else "NO" <> keyword

abbrev pub infinity : String → String
infinity valid_until = if to_lower valid_until == "infinity" then "infinity" else valid_until

module _ ⦃pq : Pq⦄ where
  abbrev pub alter_role : ResourceData → String → String
  alter_role d action = "ALTER ROLE " <> pq.quote_identifier (d.get_string "name") <> " " <> action

  -- the loop of alterSearchPath that quotes the parts
  unfoldable pub quote_parts : List String → Result (List String)
  unfolding contains
  quote_parts [] = ok []
  quote_parts (part ∷ parts) =
      if contains part ", "
      then err ("search_path cannot contain `, `: " <> part)
      else elim (quote_parts parts) [
        | ok quoted ↦ ok (pq.quote_identifier part ∷ quoted)
        | err e ↦ err e
      ]

abbrev pub roles_query : String
roles_query =
    "SELECT pg_get_userbyid(roleid) FROM pg_catalog.pg_auth_members members JOIN pg_catalog.pg_roles ON members.member = pg_roles.oid WHERE rolname = $1"

-- the loop over the rows of revokeRoles
unfoldable pub scan_roles : String → List Row → Result (List String)
scan_roles role [] = ok []
scan_roles role (r ∷ rows) = elim (as_text r) [
  | err e ↦ err ("could not scan role name for role " <> role <> ": " <> e)
  | ok granted ↦ elim (scan_roles role rows) [ ok others ↦ ok (granted ∷ others) | err e ↦ err e ]
]

module _ ⦃db : Server⦄ where
  module _ ⦃pq : Pq⦄ where
    -- setRoleName
    unfoldable pub set_role_name : ResourceData → Txn (Unit {0})
    set_role_name d =
        let o = d.old_string "name" in
        let n = d.get_string "name" in
        if not (d.has_change "name")
        then pure tt
        else if n == ""
        then fail "Error setting role name to an empty string"
        else (do
          context "Error updating role NAME: " (
              exec
                ("ALTER ROLE " <> pq.quote_identifier o <> " RENAME TO " <> pq.quote_identifier n)
                [])
          set_id n)

    -- setRolePassword
    unfoldable pub set_role_password : ResourceData → Txn (Unit {0})
    set_role_password d = when (d.has_change "password" || d.has_change "name") (
        context "Error updating role password: " (
          exec (alter_role d ("PASSWORD '" <> pq_quote_literal (d.get_string "password") <> "'"))
            []))

    -- setRoleBypassRLS; the version at the end of the message is left out
    unfoldable pub set_role_bypass_rls : Connection → ResourceData → Txn (Unit {0})
    set_role_bypass_rls c d =
        if not (d.has_change "bypass_row_level_security")
        then pure tt
        else if not (feature_supported Features.rls c.version)
        then fail
            "PostgreSQL client is talking with a server that does not support PostgreSQL Row-Level Security"
        else context "Error updating role BYPASSRLS: " (
            exec
              (alter_role d ("WITH " <> token (d.get_bool "bypass_row_level_security") "BYPASSRLS"))
              [])

    -- setRoleConnLimit
    unfoldable pub set_role_conn_limit : ResourceData → Txn (Unit {0})
    set_role_conn_limit d = when (d.has_change "connection_limit") (
        context "Error updating role CONNECTION LIMIT: "
          (exec (alter_role d ("CONNECTION LIMIT " <> itoa (d.get_int "connection_limit"))) []))

    -- the common form of setRoleCreateDB, setRoleCreateRole, setRoleInherit, setRoleLogin,
    -- setRoleReplication and setRoleSuperuser
    unfoldable pub set_role_option : String → String → ResourceData → Txn (Unit {0})
    set_role_option attribute keyword d = when (d.has_change attribute) (
        context ("Error updating role " <> keyword <> ": ")
          (exec (alter_role d ("WITH " <> token (d.get_bool attribute) keyword)) []))

    unfoldable pub set_role_create_db : ResourceData → Txn (Unit {0})
    unfolding set_role_option
    set_role_create_db = set_role_option "create_database" "CREATEDB"

    unfoldable pub set_role_create_role : ResourceData → Txn (Unit {0})
    unfolding set_role_option
    set_role_create_role = set_role_option "create_role" "CREATEROLE"

    unfoldable pub set_role_inherit : ResourceData → Txn (Unit {0})
    unfolding set_role_option
    set_role_inherit = set_role_option "inherit" "INHERIT"

    unfoldable pub set_role_login : ResourceData → Txn (Unit {0})
    unfolding set_role_option
    set_role_login = set_role_option "login" "LOGIN"

    unfoldable pub set_role_replication : ResourceData → Txn (Unit {0})
    unfolding set_role_option
    set_role_replication = set_role_option "replication" "REPLICATION"

    unfoldable pub set_role_superuser : ResourceData → Txn (Unit {0})
    unfolding set_role_option
    set_role_superuser = set_role_option "superuser" "SUPERUSER"

    -- setRoleValidUntil
    unfoldable pub set_role_valid_until : ResourceData → Txn (Unit {0})
    set_role_valid_until d =
        let valid_until = d.get_string "valid_until" in
        when (d.has_change "valid_until" && not (valid_until == "")) (
          context "Error updating role VALID UNTIL: " (
            exec (alter_role d ("VALID UNTIL '" <> pq_quote_literal (infinity valid_until) <> "'"))
              []))

    -- revokeRoles
    unfoldable pub revoke_roles : ResourceData → Txn (Unit {0})
    unfolding scan_roles
    revoke_roles d = do
      let role = d.get_string "name"
      rows ←
          context ("could not get roles list for role " <> role <> ": ")
            (query roles_query (Value.text role ∷ []))
      granted_roles ← lift (scan_roles role rows)
      for_each granted_roles (λ granted.
          context ("could not revoke role " <> granted <> " from " <> role <> ": ") (
            exec ("REVOKE " <> pq.quote_identifier granted <> " FROM " <> pq.quote_identifier role)
              []))

    -- grantRoles
    unfoldable pub grant_roles : ResourceData → Txn (Unit {0})
    grant_roles d =
        let role = d.get_string "name" in
        for_each (d.get_list "roles") (λ granting.
          context ("could not grant role " <> granting <> " to " <> role <> ": ") (
            exec ("GRANT " <> pq.quote_identifier granting <> " TO " <> pq.quote_identifier role)
              []))

    -- alterSearchPath
    unfoldable pub alter_search_path : ResourceData → Txn (Unit {0})
    unfolding quote_parts join
    alter_search_path d = do
      let role = d.get_string "name"
      let parts = d.get_list "search_path"
      quoted ← lift (if is_empty parts then ok ("DEFAULT" ∷ []) else quote_parts parts)
      let search_path = join quoted ", "
      context ("could not set search_path " <> search_path <> " for " <> role <> ": ")
          (exec (alter_role d ("SET search_path TO " <> search_path)) [])

    -- the common form of setStatementTimeout and setIdleInTransactionSessionTimeout
    unfoldable pub set_timeout : String → ResourceData → Txn (Unit {0})
    set_timeout attribute d =
        let role = d.get_string "name" in
        let value = d.get_int attribute in
        when (d.has_change attribute) (
          if is_zero value
          then context ("could not reset " <> attribute <> " for " <> role <> ": ")
              (exec (alter_role d ("RESET " <> attribute)) [])
          else context
              ("could not set " <> attribute <> " " <> itoa value <> " for " <> role <> ": ")
              (exec (alter_role d ("SET " <> attribute <> " TO " <> itoa value)) []))

    unfoldable pub set_statement_timeout : ResourceData → Txn (Unit {0})
    unfolding set_timeout
    set_statement_timeout = set_timeout "statement_timeout"

    unfoldable pub set_idle_in_transaction_session_timeout : ResourceData → Txn (Unit {0})
    unfolding set_timeout
    set_idle_in_transaction_session_timeout = set_timeout "idle_in_transaction_session_timeout"

    -- setAssumeRole
    unfoldable pub set_assume_role : ResourceData → Txn (Unit {0})
    set_assume_role d =
        let role = d.get_string "name" in
        let assume = d.get_string "assume_role" in
        when (d.has_change "assume_role") (
          if assume == ""
          then context ("could not reset role for " <> role <> ": ")
              (exec (alter_role d "RESET ROLE") [])
          else context ("could not set role " <> assume <> " for " <> role <> ": ")
              (exec (alter_role d ("SET ROLE TO " <> pq.quote_identifier assume)) []))
