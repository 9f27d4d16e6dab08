-- ===== src/Schema.antt =====
-- postgresql_schema (postgresql/resource_postgresql_schema.go): policies, and the changes between two
-- lists of them. The library github.com/sean-/postgresql-acl is a parameter. The SDK fills every
-- attribute of a policy, so each has a role.
pub mod Statements
pub mod Read
pub mod Handlers
pub mod Groups
pub mod Issued
pub mod Atomic
use yb_terraform_provider_po.Prelude.{
  String, Bool, true, false, not, ◌&&◌, List, [], ◌∷◌, Option, none, some, ◌<>◌, ◌==◌,
  if◌then◌else◌,
}
use yb_terraform_provider_po.Prelude.Result.{Result, ok, err, wrap}
use yb_terraform_provider_po.Strings.{to_lower}
use yb_terraform_provider_po.Terraform.{ResourceData}
use yb_terraform_provider_po.GoMap.{find, put}
use yb_terraform_provider_po.Qualified.{get_database, qualified_id, parse_id}

-- an item of the attribute `policy`
pub record Policy : Type 0 where
  pub role : String
  pub create : Bool
  pub create_with_grant : Bool
  pub usage : Bool
  pub usage_with_grant : Bool

-- acl.Schema, over the type of a set of privileges
pub record SchemaAcl (P : Type 0) : Type 0 where
  pub privileges : P
  pub grant_options : P
  pub role : String

-- the library postgresql-acl: sets of privileges as bits, reading an aclitem, and the methods of
-- acl.Schema
pub record Acl : Type 1 where
  pub Privileges : Type 0
  pub Item : Type 0
  pub no_privileges : Privileges
  pub create : Privileges
  pub usage : Privileges
  pub add : Privileges → Privileges → Privileges
  pub parse : String → Result Item
  pub new_schema : Item → Result (SchemaAcl Privileges)
  pub merge : SchemaAcl Privileges → SchemaAcl Privileges → SchemaAcl Privileges
  pub grants : SchemaAcl Privileges → String → List String
  pub revokes : SchemaAcl Privileges → String → List String

-- generateSchemaID
unfoldable pub generate_schema_id : ResourceData → String → String
generate_schema_id d database_name =
    qualified_id (get_database d database_name) (d.get_string "name")

-- getDBSchemaName, where the resource's id is the second argument
unfoldable pub get_db_schema_name : ResourceData → String → String → Result (String × String)
get_db_schema_name d id database_name =
    if d.get_string "name" == ""
    then elim (parse_id id) [
      | none ↦ err ("schema ID " <> id <> " has not the expected format 'database.schema'")
      | some names ↦ ok names
    ]
    else ok (get_database d database_name, d.get_string "name")

-- oldLookupMap and newLookupMap: the last policy of each role
unfoldable pub lookup_map : List Policy → List (String × Policy) → List (String × Policy)
unfolding put
lookup_map [] m = m
lookup_map (p ∷ policies) m = lookup_map policies (put (to_lower p.role) p m)

abbrev pub same : Bool → Bool → Bool
same true b = b
same false b = not b

-- reflect.DeepEqual on two policies
unfoldable pub deep_equal : Policy → Policy → Bool
deep_equal p q =
    p.role == q.role
    && (same p.create q.create
        && (same p.create_with_grant q.create_with_grant
            && (same p.usage q.usage && same p.usage_with_grant q.usage_with_grant)))

-- the entries of the first map whose key is not in the second
unfoldable pub only_in : List (String × Policy) → List (String × Policy) → List (String × Policy)
unfolding find
only_in [] other = []
only_in ((k, p) ∷ m) other = elim (find other k) [
  | none ↦ (k, p) ∷ only_in m other
  | some _ ↦ only_in m other
]

-- the two policies of a role that both maps have
pub record Both : Type 0 where
  pub old : Policy
  pub new : Policy

-- the entries of both maps, old and new, that differ, or those that do not
unfoldable pub in_both :
    Bool → List (String × Policy) → List (String × Policy) → List (String × Both)
unfolding find deep_equal
in_both equal [] new = []
in_both equal ((k, p) ∷ m) new = elim (find new k) [
  | none ↦ in_both equal m new
  | some q ↦
      let later = in_both equal m new in
      if same equal (deep_equal p q) then (k, record { old = p; new = q }) ∷ later else later
]

-- the maps that schemaChangedPolicies returns; the last has the old policies in the source
pub record Changes : Type 0 where
  pub dropped : List (String × Policy)
  pub added : List (String × Policy)
  pub updated : List (String × Both)
  pub unchanged : List (String × Both)

-- schemaChangedPolicies
unfoldable pub schema_changed_policies : List Policy → List Policy → Changes
schema_changed_policies old new =
    let old_map = lookup_map old [] in
    let new_map = lookup_map new [] in
    record {
      dropped = only_in old_map new_map;
      added = only_in new_map old_map;
      updated = in_both false old_map new_map;
      unchanged = in_both true old_map new_map;
    }

module _ ⦃acl : Acl⦄ where
  abbrev pub with : Bool → acl.Privileges → acl.Privileges → acl.Privileges
  with true privilege mask = acl.add mask privilege
  with false privilege mask = mask

  -- schemaPolicyToACL
  unfoldable pub schema_policy_to_acl : Policy → SchemaAcl acl.Privileges
  schema_policy_to_acl p = record {
    privileges = with p.usage_with_grant acl.usage (
        with p.usage acl.usage
          (with p.create_with_grant acl.create (with p.create acl.create acl.no_privileges)));
    grant_options =
        with p.usage_with_grant acl.usage (with p.create_with_grant acl.create acl.no_privileges);
    role = p.role;
  }

  -- schemaPolicies[roleKey] with one more
  unfoldable pub merge_role :
      SchemaAcl acl.Privileges
      → List (String × SchemaAcl acl.Privileges)
      → List (String × SchemaAcl acl.Privileges)
  unfolding find put
  merge_role a m =
      let key = to_lower a.role in
      elim (find m key) [ some existing ↦ put key (acl.merge existing a) m | none ↦ put key a m ]

  -- the loop of createSchema over the policies
  unfoldable pub merge_policies :
      List Policy
      → List (String × SchemaAcl acl.Privileges)
      → List (String × SchemaAcl acl.Privileges)
  unfolding merge_role schema_policy_to_acl
  merge_policies [] m = m
  merge_policies (p ∷ policies) m = merge_policies policies (merge_role (schema_policy_to_acl p) m)
