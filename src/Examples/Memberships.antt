-- ===== src/Examples/Memberships.antt =====
-- withRolesGranted on the sample server.
use yb_terraform_provider_po.Prelude.{String, true, false, List, [], ◌∷◌, ◌≡◌, refl, ap, sym, ◌∙◌}
use yb_terraform_provider_po.Prelude.Int.{pos}
use yb_terraform_provider_po.Prelude.Result.{Result, ok}
use yb_terraform_provider_po.Terraform.{ResourceData}
use yb_terraform_provider_po.Transaction.{Live, exec, query_row}
use yb_terraform_provider_po.Catalog.{row_exists, role_exists, get_current_user, is_superuser}
use yb_terraform_provider_po.Membership.{
  is_member_of_role, grant_role_membership, revoke_role_membership, prepare_role, prepare_roles,
  revoke_granted, grant_back, around, with_roles_granted,
}
use yb_terraform_provider_po.Membership.Laws.{members}
use yb_terraform_provider_po.Membership.Restored.{with_roles_granted-restores}
use yb_terraform_provider_po.Prelude.{◌≢◌}
use yb_terraform_provider_po.Slices.{slice_contains_str}
use yb_terraform_provider_po.Membership.Ready.{Superusers, superusers, with_roles_granted-ready}
use yb_terraform_provider_po.Examples.Server.{
  sample_pq, sample_db, sample_memberships, answer, other_statement,
}
use yb_terraform_provider_po.Strings.{replace}

abbrev pub no_data : ResourceData
no_data = record {
  id = "";
  get_string = λ name. "";
  get_bool = λ name. false;
  get_int = λ name. pos 0;
  get_list = λ name. [];
  get_ok = λ name. false;
  has_change = λ name. false;
  old_string = λ name. "";
  old_list = λ name. [];
  is_new_resource = false;
  settings = [];
}

abbrev pub start : Live (List String)
start = record { session = []; resource = no_data }

abbrev create_schema : Live (List String) → Result (Unit {0}) × Live (List String)
create_schema = exec "CREATE SCHEMA s" []

abbrev finished : Live (List String)
finished = record {
  session =
      "GRANT \"admin\" TO \"app\"" ∷ "REVOKE \"app\" FROM \"admin\"" ∷ "CREATE SCHEMA s"
      ∷ "GRANT \"app\" TO \"admin\"" ∷ "REVOKE \"admin\" FROM \"app\"" ∷ [];
  resource = no_data;
}

-- "app" is a member of the connected user "admin", so the memberships are turned round and back
turned_round : with_roles_granted ("app" ∷ []) create_schema start ≡ (ok tt, finished)
unfolding with_roles_granted around prepare_roles prepare_role revoke_granted grant_back
    grant_role_membership revoke_role_membership is_member_of_role row_exists role_exists
    get_current_user is_superuser query_row exec answer replace
turned_round = refl

keeps :
    (u v : Live (List String))
    → create_schema u ≡ (ok tt, v)
    → members sample_memberships v "admin" "app" ≡ members sample_memberships u "admin" "app"
unfolding exec sample_memberships
keeps u v e =
    ap
      (λ (r : Result (Unit {0}) × Live (List String)). members sample_memberships r.1 "admin" "app")
      (sym e)
    ∙ other_statement u.session "CREATE SCHEMA s" "admin" "app" refl

app_exists : (v : Live (List String)) → sample_memberships.exists v.session "app" ≡ true
unfolding sample_memberships
app_exists v = refl

with_roles_granted-restores_example :
    members sample_memberships finished "admin" "app"
    ≡ members sample_memberships start "admin" "app"
with_roles_granted-restores_example =
    with_roles_granted-restores sample_memberships ("app" ∷ []) create_schema start finished "admin"
      "app" keeps (λ u v e. app_exists v) turned_round

sample_superusers : Superusers
unfolding answer
sample_superusers = record {
  superuser = λ log role. false;
  superuser_rows = λ log role. refl;
  granted_superuser = λ s t role user x e. refl;
  revoked_superuser = λ s t role user x e. refl;
}

connected_user : get_current_user start ≡ (ok "admin", start)
unfolding get_current_user query_row answer
connected_user = refl

no_superuser : superusers sample_superusers start "admin" ≡ false
unfolding sample_superusers
no_superuser = refl

with_roles_granted-ready_example :
    (u : Live (List String)) × (v : Live (List String)) × (create_schema u ≡ (ok tt, v))
    × ((x : String)
        → slice_contains_str ("app" ∷ []) x ≡ true
        → superusers sample_superusers start x ≡ false
        → x ≢ "admin"
        → members sample_memberships u x "admin" ≡ true)
with_roles_granted-ready_example =
    with_roles_granted-ready sample_memberships sample_superusers "admin" ("app" ∷ []) create_schema
      start finished connected_user no_superuser turned_round
