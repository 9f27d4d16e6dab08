-- ===== src/Examples/Databases.antt =====
-- postgresql_database on the sample server: the steps around CREATE DATABASE for an owner.
use yb_terraform_provider_po.Prelude.{
  String, List, [], ◌∷◌, ◌==◌, ◌||◌, ◌≡◌, refl, if◌then◌else◌, ap, sym,
}
use yb_terraform_provider_po.Prelude.Int.{pos, itoa}
use yb_terraform_provider_po.Prelude.Result.{Result}
use yb_terraform_provider_po.Strings.{replace, to_upper}
use yb_terraform_provider_po.Quote.{pq_quote_literal}
use yb_terraform_provider_po.Features.{feature_supported}
use yb_terraform_provider_po.Terraform.{ResourceData}
use yb_terraform_provider_po.Transaction.{
  Handler, exec, query_row, autocommit, deferring, rolled_back, start_transaction, close,
  get_database_username,
}
use yb_terraform_provider_po.Catalog.{row_exists, pg_lock_role}
use yb_terraform_provider_po.Membership.{
  is_member_of_role, grant_role_membership, revoke_role_membership,
}
use yb_terraform_provider_po.Database.{
  with_owner_granted, revoke_again, create_database, create_database_sql, default_or,
}
use yb_terraform_provider_po.Database.Restored.{
  Shows, LeavesMemberships, before_revoke, IsRestored, with_owner_granted-IsRestored,
}
use yb_terraform_provider_po.Examples.Server.{
  sample_pq, sample_db, sample_memberships, answer, other_statement,
}
use yb_terraform_provider_po.Examples.Memberships.{no_data}
use yb_terraform_provider_po.Examples.Grants.{connection, machine, commits}

abbrev create : Handler (Unit {0})
create = autocommit (exec "CREATE DATABASE d" [])

shows : Shows sample_memberships
unfolding sample_memberships
shows s w w' x y e =
    ap (λ (r : Result (Unit {0}) × List String). sample_memberships.member r.1 x y) (sym e)

leaves : LeavesMemberships sample_memberships create
unfolding sample_memberships autocommit close exec
leaves m x y = other_statement m.world "CREATE DATABASE d" x y refl

with_owner_granted-IsRestored_example :
    IsRestored sample_memberships "owner" "admin" machine
      (before_revoke sample_memberships connection.client "owner" create machine)
      (with_owner_granted connection.client "owner" create machine).1
unfolding get_database_username
with_owner_granted-IsRestored_example =
    with_owner_granted-IsRestored sample_memberships connection.client "owner" create machine shows
      commits leaves

abbrev database_data : ResourceData
database_data = record no_data {
  get_string = λ name.
      if name == "name"
      then "d"
      else if name == "owner"
      then "owner"
      else if name == "lc_ctype"
      then "C"
      else "";
  get_int = λ name. pos 10;
  get_ok = λ name. name == "lc_ctype" || name == "owner";
}

-- the membership of "admin" in "owner" is granted and revoked around the statement
around_creation :
    (create_database connection database_data machine).1.world
    ≡ "REVOKE \"owner\" FROM \"admin\""
      ∷ "CREATE DATABASE \"d\" OWNER \"owner\" TEMPLATE template0 ENCODING 'UTF8' LC_CTYPE 'C'  ALLOW_CONNECTIONS false CONNECTION LIMIT 10 IS_TEMPLATE false"
      ∷ "GRANT \"owner\" TO \"admin\"" ∷ []
unfolding create_database create_database_sql default_or with_owner_granted revoke_again
    grant_role_membership revoke_role_membership is_member_of_role row_exists pg_lock_role
    autocommit deferring rolled_back start_transaction close exec query_row answer replace
    get_database_username pq_quote_literal to_upper feature_supported itoa
around_creation = refl
