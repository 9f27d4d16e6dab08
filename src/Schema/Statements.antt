-- ===== src/Schema/Statements.antt =====
-- The steps of the handlers of postgresql_schema (postgresql/resource_postgresql_schema.go: createSchema,
-- setSchemaName, setSchemaOwner, setSchemaPolicy). `policies` is the attribute `policy`, `old_policies`
-- its previous value.
use yb_terraform_provider_po.Prelude.{String, ◌&&◌, List, [], ◌∷◌, ◌++◌, ◌<>◌, ◌==◌, if◌then◌else◌}
use yb_terraform_provider_po.Prelude.Result.{pure, fail, context, when, for_each, ◌>>=◌, ◌>>◌}
use yb_terraform_provider_po.Postgres.{Pq, Server, Value, row, no_rows, failed, as_bool}
use yb_terraform_provider_po.Features.{feature_supported, schema_create_if_not_exist}
use yb_terraform_provider_po.Features
use yb_terraform_provider_po.Terraform.{ResourceData}
use yb_terraform_provider_po.Transaction.{Connection, Txn, exec, query_row, set_id}
use yb_terraform_provider_po.Membership.{with_roles_granted}
use yb_terraform_provider_po.GoMap.{Iteration}
use yb_terraform_provider_po.Schema.{
  Policy, Both, SchemaAcl, Acl, generate_schema_id, schema_changed_policies, schema_policy_to_acl,
  merge_policies,
}

module _ ⦃pq : Pq⦄ where
  -- the CREATE SCHEMA statement of createSchema
  unfoldable pub create_schema_sql : Connection → ResourceData → String
  create_schema_sql c d =
      "CREATE SCHEMA "
      <> (if feature_supported Features.schema_create_if_not_exist c.version
            && d.get_bool "if_not_exists"
          then "IF NOT EXISTS "
          else "")
      <> pq.quote_identifier (d.get_string "name")
      <> (if d.get_ok "owner"
          then " AUTHORIZATION " <> pq.quote_identifier (d.get_string "owner")
          else "")

  module _ ⦃db : Server⦄ where
    -- setSchemaName
    unfoldable pub set_schema_name : ResourceData → String → Txn (Unit {0})
    set_schema_name d database_name =
        let n = d.get_string "name" in
        when (d.has_change "name") (
          if n == "" then fail "Error setting schema name to an empty string" else (do
            context "Error updating schema NAME: " (
                exec
                  ("ALTER SCHEMA "
                    <> pq.quote_identifier (d.old_string "name")
                    <> " RENAME TO "
                    <> pq.quote_identifier n)
                  [])
            set_id (generate_schema_id d database_name)))

    -- setSchemaOwner
    unfoldable pub set_schema_owner : ResourceData → Txn (Unit {0})
    set_schema_owner d =
        let owner = d.get_string "owner" in
        when (d.has_change "owner") (
          if owner == ""
          then fail "Error setting schema owner to an empty string"
          else context "Error updating schema OWNER: " (
              exec
                ("ALTER SCHEMA "
                  <> pq.quote_identifier (d.get_string "name")
                  <> " OWNER TO "
                  <> pq.quote_identifier owner)
                []))

    -- the query at the head of createSchema: the statements for a schema that is not there
    unfoldable pub find_or_create : Connection → ResourceData → Txn (List String)
    find_or_create c d = do
      answer ←
          query_row as_bool "SELECT TRUE FROM pg_catalog.pg_namespace WHERE nspname = $1"
            (Value.text (d.get_string "name") ∷ [])
      elim answer [
        | no_rows ↦ pure (create_schema_sql c d ∷ [])
        | failed e ↦ fail ("Error looking for schema: " <> e)
        | row _ ↦ do set_schema_owner d; pure []
      ]

module _ ⦃acl : Acl⦄ where
  -- the GRANTs for the entries of a map, or for a list of them in the order of the iteration
  unfoldable pub grants_of : String → List (String × SchemaAcl acl.Privileges) → List String
  grants_of name [] = []
  grants_of name ((k, a) ∷ m) = acl.grants a name ++ grants_of name m

  -- the loop of setSchemaPolicy over the added policies
  unfoldable pub added_queries : String → List (String × Policy) → List String
  unfolding schema_policy_to_acl
  added_queries name [] = []
  added_queries name ((k, p) ∷ m) = acl.grants (schema_policy_to_acl p) name ++ added_queries name m

  -- the loop of setSchemaPolicy over the updated policies
  unfoldable pub updated_queries : String → List (String × Both) → List String
  unfolding schema_policy_to_acl
  updated_queries name [] = []
  updated_queries name ((k, b) ∷ m) =
      acl.revokes (schema_policy_to_acl b.old) name
      ++ (acl.grants (schema_policy_to_acl b.new) name ++ updated_queries name m)

  module _ ⦃db : Server⦄ where
    -- one round of the loop of setSchemaPolicy over the dropped policies
    unfoldable pub dropped_role : String → Policy → Txn (List String)
    dropped_role name p = if p.role == "" then pure [] else (do
      answer ←
          query_row as_bool "SELECT TRUE FROM pg_catalog.pg_roles WHERE rolname = $1"
            (Value.text p.role ∷ [])
      elim answer [
        | no_rows ↦ pure []
        | failed e ↦ fail ("Error reading schema: " <> e)
        | row _ ↦ pure (acl.revokes (schema_policy_to_acl p) name)
      ])

    -- that loop
    unfoldable pub dropped_queries : String → List (String × Policy) → Txn (List String)
    unfolding dropped_role
    dropped_queries name [] = pure []
    dropped_queries name ((k, p) ∷ m) = do
      first ← dropped_role name p
      rest ← dropped_queries name m
      pure (first ++ rest)

    module _ ⦃pq : Pq⦄ ⦃it : Iteration⦄ where
      -- createSchema
      unfoldable pub create_schema : Connection → ResourceData → List Policy → Txn (Unit {0})
      unfolding merge_policies
      create_schema c d policies = do
        let name = d.get_string "name"
        queries ← find_or_create c d
        for_each (queries ++ grants_of name (it.order (merge_policies policies [])))
            λ sql. context ("Error creating schema " <> name <> ": ") (exec sql [])

      -- the statements of setSchemaPolicy
      unfoldable pub policy_queries : ResourceData → List Policy → List Policy → Txn (List String)
      unfolding schema_changed_policies
      policy_queries d old_policies policies = do
        let name = d.get_string "name"
        let changes = schema_changed_policies old_policies policies
        dropped ← dropped_queries name (it.order changes.dropped)
        pure (
            dropped
            ++ (added_queries name (it.order changes.added)
                ++ updated_queries name (it.order changes.updated)))

      -- setSchemaPolicy
      unfoldable pub set_schema_policy : ResourceData → List Policy → List Policy → Txn (Unit {0})
      set_schema_policy d old_policies policies = when (d.has_change "policy") (do
        let owner = d.get_string "owner"
        queries ← policy_queries d old_policies policies
        with_roles_granted (if owner == "" then [] else owner ∷ [])
            (for_each queries λ sql. context "Error updating schema DCL: " (exec sql [])))
