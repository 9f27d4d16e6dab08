-- ===== src/Examples/GrantRoles.antt =====
-- postgresql_grant_role on a server that keeps the statements, newest first, and reads from them the
-- membership of "bob" in "app": "app" is granted with the admin option.
use yb_terraform_provider_po.Prelude.{
  String, Bool, true, ◌&&◌, List, [], ◌∷◌, ◌<>◌, ◌==◌, ◌≡◌, refl, ap, sym, ◌∙◌, arith, Option, none,
  some, if◌then◌else◌,
}
use yb_terraform_provider_po.Prelude.Result.{Result, ok}
use yb_terraform_provider_po.Postgres.{Server}
use yb_terraform_provider_po.Terraform.{ResourceData}
use yb_terraform_provider_po.Transaction.{
  Machine, Live, exec, query_row, set, set_id, transaction, handler_set_id, directly,
  start_transaction, close,
}
use yb_terraform_provider_po.Features.{feature_supported}
use yb_terraform_provider_po.Strings.{replace}
use yb_terraform_provider_po.GrantRole.{
  get_grant_role_query, generate_grant_role_id, check_feature, read_grant_role, revoke_role,
  grant_role, regrant, grant_role_create, create_grant_role_query, create_revoke_role_query,
}
use yb_terraform_provider_po.GrantRole.{grant_role_delete}
use yb_terraform_provider_po.GrantRole.Atomic.{grant_role-IsAllOrNothing}
use yb_terraform_provider_po.Transaction.Atomic.{CommitsOrRollsBack, IsAllOrNothing}
use yb_terraform_provider_po.GrantRole.Granted.{
  AdminMemberships, membership_rows, is_admin, regrant-granted, grant_role_create-granted,
}
use yb_terraform_provider_po.Examples.Server.{sample_pq}
use yb_terraform_provider_po.Examples.Memberships.{no_data}
use yb_terraform_provider_po.Examples.Grants.{connection, machine}

abbrev granting : String
granting = "GRANT \"app\" TO \"bob\""

unfoldable admin_of : List String → String → String → Option Bool
admin_of [] x y = none
admin_of (sql ∷ log) x y =
    let before = admin_of log x y in
    if x == "bob" && y == "app"
    then (if sql == granting
        then some (is_admin before)
        else if sql == granting <> " WITH ADMIN OPTION"
        then some true
        else if sql == "REVOKE \"app\" FROM \"bob\""
        then none
        else before)
    else before

abbrev role_db : Server
role_db = record {
  World = List String;
  Session = List String;
  connect = λ name w. ok tt;
  begin = λ name w. ok w;
  direct = λ w. w;
  run = λ sql args log. (ok tt, sql ∷ log);
  rows = λ sql args log. ok (
      if sql == get_grant_role_query
      then membership_rows "bob" "app" (admin_of log "bob" "app")
      else []);
  finish = λ log w. (ok tt, log);
}

abbrev membership_data : ResourceData
membership_data = record no_data {
  get_string = λ name. if name == "role" then "bob" else if name == "grant_role" then "app" else "";
  get_bool = λ name. name == "with_admin_option";
}

after :
    (s t : List String) (sql x y : String)
    → role_db.run sql [] s ≡ (ok tt, t)
    → admin_of t x y ≡ admin_of (sql ∷ s) x y
after s t sql x y e = ap (λ (r : Result (Unit {0}) × List String). admin_of r.1 x y) (sym e)

role_memberships : AdminMemberships ⦃db = role_db⦄ ⦃pq = sample_pq⦄ "app" "bob"
unfolding admin_of replace
role_memberships = record {
  admin = admin_of;
  granted = λ s t x y e. after s t _ x y e ∙ ground arith;
  granted_admin = λ s t x y e. after s t _ x y e ∙ ground arith;
  revoked = λ s t x y e. after s t _ x y e ∙ ground arith;
  admin_rows = λ s. refl;
  committed =
      λ s w w' x y e. ap (λ (r : Result (Unit {0}) × List String). admin_of r.1 x y) (sym e);
}

abbrev opened : Live (List String)
opened = record { session = granting ∷ []; resource = no_data }

abbrev regranted : Live (List String)
regranted = (regrant ⦃db = role_db⦄ ⦃pq = sample_pq⦄ membership_data opened).1

regrant_succeeds :
    regrant ⦃db = role_db⦄ ⦃pq = sample_pq⦄ membership_data opened ≡ (ok tt, regranted)
unfolding regrant revoke_role grant_role exec
regrant_succeeds = refl

regrant-granted_example : role_memberships.admin regranted.session "bob" "app" ≡ (
    if "bob" == "bob" && "app" == "app"
    then some true
    else role_memberships.admin opened.session "bob" "app")
regrant-granted_example =
    regrant-granted ⦃db = role_db⦄ ⦃pq = sample_pq⦄ membership_data role_memberships opened
      regranted "bob" "app" regrant_succeeds

abbrev created : Machine (List String)
created = (grant_role_create ⦃db = role_db⦄ ⦃pq = sample_pq⦄ connection membership_data machine).1

create_succeeds :
    grant_role_create ⦃db = role_db⦄ ⦃pq = sample_pq⦄ connection membership_data machine
    ≡ (ok tt, created)
unfolding grant_role_create check_feature feature_supported transaction start_transaction close
    regrant revoke_role grant_role exec handler_set_id directly read_grant_role query_row set set_id
    create_grant_role_query create_revoke_role_query replace admin_of
create_succeeds = refl

grant_role_create-granted_example :
    (role_memberships.admin created.world "bob" "app" ≡ some true)
    × (created.resource.id ≡ generate_grant_role_id membership_data)
grant_role_create-granted_example =
    grant_role_create-granted ⦃db = role_db⦄ ⦃pq = sample_pq⦄ connection membership_data
      role_memberships machine created create_succeeds

commits_role : CommitsOrRollsBack role_db
commits_role s w w' e h = absurd (cc)

grant_role-IsAllOrNothing_example :
    IsAllOrNothing ⦃db = role_db⦄ connection.client ""
      (regrant ⦃db = role_db⦄ ⦃pq = sample_pq⦄ membership_data)
      machine
      (grant_role_create ⦃db = role_db⦄ ⦃pq = sample_pq⦄ connection membership_data machine)
    × IsAllOrNothing ⦃db = role_db⦄ connection.client ""
        (revoke_role ⦃db = role_db⦄ ⦃pq = sample_pq⦄ membership_data)
        machine
        (grant_role_delete ⦃db = role_db⦄ ⦃pq = sample_pq⦄ connection membership_data machine)
grant_role-IsAllOrNothing_example =
    grant_role-IsAllOrNothing ⦃db = role_db⦄ ⦃pq = sample_pq⦄ connection membership_data machine
      commits_role
