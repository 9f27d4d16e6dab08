-- ===== src/Examples/DefaultPrivileges.antt =====
-- postgresql_default_privileges on the sample server: SELECT on tables of the schema "public".
use yb_terraform_provider_po.Prelude.{ℕ, String, List, [], ◌∷◌, ◌≡◌, refl}
use yb_terraform_provider_po.Prelude.Result.{ok}
use yb_terraform_provider_po.Postgres.{Scan, as_texts, scan_with, first_row}
use yb_terraform_provider_po.Terraform.{Setting}
use yb_terraform_provider_po.Transaction.{Live, exec, query_row, set, set_id}
use yb_terraform_provider_po.Transaction.Atomic.{IsAllOrNothing}
use yb_terraform_provider_po.Catalog.{pg_lock_role, get_role_oid}
use yb_terraform_provider_po.Privileges.{resource_privileges_equal}
use yb_terraform_provider_po.DefaultPrivileges.{generate_default_privileges_id}
use yb_terraform_provider_po.DefaultPrivileges.Read.{
  report_privileges, read_role_default_privileges, default_query, query_args,
}
use yb_terraform_provider_po.DefaultPrivileges.Handlers.{
  replace_privileges, remove_privileges, default_privileges_create, default_privileges_delete,
}
use yb_terraform_provider_po.DefaultPrivileges.Atomic.{default_privileges-IsAllOrNothing}
use yb_terraform_provider_po.DefaultPrivileges.Report.{
  IsReported, IsOidOf, read_role_default_privileges-IsReported,
}
use yb_terraform_provider_po.Examples.Server.{sample_pq, sample_db, answer}
use yb_terraform_provider_po.Examples.Memberships.{start}
use yb_terraform_provider_po.Examples.Grants.{connection, machine, grant_data, commits}

default_privileges-IsAllOrNothing_example :
    IsAllOrNothing connection.client "db"
      (replace_privileges grant_data)
      machine
      (default_privileges_create connection grant_data machine)
    × IsAllOrNothing connection.client "db"
        (remove_privileges grant_data)
        machine
        (default_privileges_delete connection grant_data machine)
default_privileges-IsAllOrNothing_example =
    default_privileges-IsAllOrNothing connection grant_data machine commits

abbrev read_back : Live (List String)
read_back = (read_role_default_privileges grant_data start).1

was_read : read_role_default_privileges grant_data start ≡ (ok tt, read_back)
unfolding read_role_default_privileges pg_lock_role get_role_oid exec query_row answer
    report_privileges resource_privileges_equal generate_default_privileges_id set set_id
was_read = refl

-- the server has INSERT too, which the reading shows
shows_insert :
    read_back.resource.settings ≡ ("privileges", Setting.texts ("SELECT" ∷ "INSERT" ∷ [])) ∷ []
unfolding read_role_default_privileges pg_lock_role get_role_oid exec query_row answer
    report_privileges resource_privileges_equal generate_default_privileges_id set set_id
shows_insert = refl

read_role_default_privileges-IsReported_example :
    (granted : List String) × (role_oid : ℕ) × (locked : Live (List String)) × (pg_lock_role ""
        start
      ≡ (ok tt, locked))
    × IsOidOf "app" role_oid locked.session
    × (scan_with as_texts (
          first_row (
            sample_db.rows
              (default_query grant_data)
              (query_args grant_data role_oid)
              locked.session))
        ≡ Scan.row granted)
    × IsReported grant_data granted read_back.resource
read_role_default_privileges-IsReported_example =
    read_role_default_privileges-IsReported grant_data start read_back refl was_read
