-- ===== src/Examples/Schemas.antt =====
-- postgresql_schema and postgresql_extension on the sample server, with a library of ACLs whose sets of privileges are texts.
use mathlib.Core.List.Perm
use yb_terraform_provider_po.Prelude.{
  String, true, false, List, [], ◌∷◌, ◌==◌, ◌<>◌, ◌≡◌, ◌↔◌, refl, if◌then◌else◌, some,
}
use yb_terraform_provider_po.Prelude.Result.{ok}
use yb_terraform_provider_po.Strings.{to_lower}
use yb_terraform_provider_po.Terraform.{ResourceData}
use yb_terraform_provider_po.Transaction.Atomic.{IsAllOrNothing}
use yb_terraform_provider_po.GoMap.{Iteration, find, put}
use yb_terraform_provider_po.Qualified.Imported.{Names, imported_iff}
use yb_terraform_provider_po.Schema.{
  Policy, Acl, schema_changed_policies, get_db_schema_name, lookup_map, in_both, deep_equal,
}
use yb_terraform_provider_po.Schema.Groups.{policy_of, IsSorted, schema_changed_policies-IsSorted}
use yb_terraform_provider_po.Schema.{only_in, schema_policy_to_acl}
use yb_terraform_provider_po.Schema.Statements.{
  policy_queries, dropped_queries, dropped_role, added_queries, updated_queries,
}
use yb_terraform_provider_po.Schema.Issued.{IsIssued, KnowsRoles}
use yb_terraform_provider_po.Schema.Issued.Iff.{policy_queries_iff}
use yb_terraform_provider_po.Slices.{slice_contains_str}
use yb_terraform_provider_po.Transaction.{query_row}
use yb_terraform_provider_po.Examples.Server.{answer}
use yb_terraform_provider_po.Schema.Handlers.{
  database_for, schema_create, creating_schema, schema_update, updating_schema, schema_delete,
}
use yb_terraform_provider_po.Schema.Atomic.{
  IsDeleted, schema-IsAllOrNothing, schema_delete-IsDeleted,
}
use yb_terraform_provider_po.Extension.{get_db_ext_name}
use yb_terraform_provider_po.Extension.Handlers.{
  extension_database, create_extension, extension_create, update_extension, extension_update,
  drop_extension, extension_delete,
}
use yb_terraform_provider_po.Extension.Atomic.{extension-IsAllOrNothing}
use yb_terraform_provider_po.Publication.{get_db_publication_name}
use yb_terraform_provider_po.ReplicationSlot.{get_db_replication_slot_name}
use yb_terraform_provider_po.Examples.Server.{sample_pq, sample_db}
use yb_terraform_provider_po.Examples.Memberships.{no_data, start}
use yb_terraform_provider_po.Examples.Grants.{connection, machine, commits}

instance abbrev sample_acl : Acl
sample_acl = record {
  Privileges = String;
  Item = String;
  no_privileges = "";
  create = "C";
  usage = "U";
  add = λ p q. p <> q;
  parse = λ text. ok text;
  new_schema = λ item. ok (record { privileges = item; grant_options = ""; role = item });
  merge = λ a b. record {
    privileges = a.privileges <> b.privileges;
    grant_options = "";
    role = a.role;
  };
  grants = λ a name. ("GRANT " <> a.privileges <> " ON " <> name <> " TO " <> a.role) ∷ [];
  revokes = λ a name. ("REVOKE " <> a.privileges <> " ON " <> name <> " FROM " <> a.role) ∷ [];
}

instance abbrev sample_order : Iteration
sample_order = record { order = λ m. m; order-Perm = λ m. Perm.refl m }

abbrev usage_for : String → Policy
usage_for role = record {
  role = role;
  create = false;
  create_with_grant = false;
  usage = true;
  usage_with_grant = false;
}

abbrev both_for : String → Policy
both_for role = record {
  role = role;
  create = true;
  create_with_grant = false;
  usage = true;
  usage_with_grant = false;
}

abbrev before : List Policy
before = usage_for "app" ∷ usage_for "old" ∷ []

abbrev after : List Policy
after = both_for "App" ∷ usage_for "new" ∷ []

-- "App" is "app", with other policies
app_updated :
    find (schema_changed_policies before after).updated "app"
    ≡ some (record { old = usage_for "app"; new = both_for "App" })
unfolding schema_changed_policies lookup_map in_both deep_equal find put to_lower
app_updated = refl

abbrev schema_data : ResourceData
schema_data = record no_data {
  get_string = λ name. if name == "name" then "s" else if name == "owner" then "app" else "";
}

schema-IsAllOrNothing_example :
    IsAllOrNothing connection.client
      (database_for connection schema_data)
      (creating_schema connection schema_data after)
      machine
      (schema_create connection schema_data after machine)
    × IsAllOrNothing connection.client
        (database_for connection schema_data)
        (updating_schema connection schema_data before after)
        machine
        (schema_update connection schema_data before after machine)
schema-IsAllOrNothing_example =
    schema-IsAllOrNothing connection schema_data before after machine commits

schema_delete-IsDeleted_example :
    IsDeleted connection schema_data machine (schema_delete connection schema_data machine)
schema_delete-IsDeleted_example = schema_delete-IsDeleted connection schema_data machine commits

schema_changed_policies-IsSorted_example :
    IsSorted
      (policy_of before "app")
      (policy_of after "app")
      (schema_changed_policies before after)
      "app"
schema_changed_policies-IsSorted_example = schema_changed_policies-IsSorted before after "app"

abbrev app_policies : List Policy
app_policies = usage_for "app" ∷ []

-- the policy of "app" is dropped
dropped_app :
    policy_queries schema_data app_policies [] start ≡ (ok ("REVOKE U ON s FROM app" ∷ []), start)
unfolding policy_queries schema_changed_policies lookup_map only_in in_both dropped_queries
    dropped_role added_queries updated_queries schema_policy_to_acl find put to_lower query_row
    answer
dropped_app = refl

-- the policy of PUBLIC is dropped, and nothing is revoked
dropped_public : policy_queries schema_data (usage_for "" ∷ []) [] start ≡ (ok [], start)
unfolding policy_queries schema_changed_policies lookup_map only_in in_both dropped_queries
    dropped_role added_queries updated_queries find put to_lower
dropped_public = refl

-- of two policies of one role only the last counts
unchanged_last :
    (schema_changed_policies (both_for "app" ∷ usage_for "app" ∷ []) app_policies).updated ≡ []
unfolding schema_changed_policies lookup_map in_both deep_equal find put to_lower
unchanged_last = refl

known_roles : KnowsRoles (λ role. true) "s" "REVOKE U ON s FROM app" []
unfolding answer
known_roles role = refl

policy_queries_iff_example :
    (slice_contains_str ("REVOKE U ON s FROM app" ∷ []) "REVOKE U ON s FROM app" ≡ true) ↔ (
      (key : String) × IsIssued
        (λ role. true)
        "s"
        "REVOKE U ON s FROM app"
        (policy_of app_policies key)
        (policy_of [] key))
policy_queries_iff_example =
    policy_queries_iff schema_data app_policies [] (λ role. true) start start
      ("REVOKE U ON s FROM app" ∷ []) "REVOKE U ON s FROM app" known_roles dropped_app

imported_iff_example :
    ((get_db_schema_name no_data "db.s" "postgres" ≡ ok ("db", "s")) ↔ Names "db.s" "db" "s")
    × ((get_db_publication_name no_data "db.s" connection.client ≡ ok ("db", "s"))
        ↔ Names "db.s" "db" "s")
    × ((get_db_ext_name no_data "db.s" connection.client ≡ ok ("db", "s")) ↔ Names "db.s" "db" "s")
    × ((get_db_replication_slot_name no_data "db.s" connection.client ≡ ok ("db", "s"))
        ↔ Names "db.s" "db" "s")
imported_iff_example = imported_iff no_data "db.s" connection.client "db" "s" refl

extension-IsAllOrNothing_example :
    IsAllOrNothing connection.client
      (extension_database connection schema_data)
      (create_extension schema_data)
      machine
      (extension_create connection schema_data machine)
    × IsAllOrNothing connection.client
        (extension_database connection schema_data)
        (update_extension schema_data)
        machine
        (extension_update connection schema_data machine)
    × IsAllOrNothing connection.client
        (extension_database connection schema_data)
        (drop_extension schema_data)
        machine
        (extension_delete connection schema_data machine)
extension-IsAllOrNothing_example = extension-IsAllOrNothing connection schema_data machine commits
