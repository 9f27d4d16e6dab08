-- ===== src/Examples/Grants.antt =====
-- postgresql_grant on the sample server: SELECT on the table "t" of the schema "public" for "app".
use yb_terraform_provider_po.Prelude.{
  String, true, false, List, [], ◌∷◌, map, ◌==◌, ◌≡◌, ◌↔◌, ◌⊎◌, refl, if◌then◌else◌,
}
use yb_terraform_provider_po.Prelude.Result.{ok}
use yb_terraform_provider_po.Features.{Version}
use yb_terraform_provider_po.Terraform.{ResourceData, Setting}
use yb_terraform_provider_po.Transaction.{Machine, Connection, set}
use yb_terraform_provider_po.Transaction.Atomic.{CommitsOrRollsBack, IsAllOrNothing}
use yb_terraform_provider_po.Grant.Apply.{validate_parameters}
use yb_terraform_provider_po.Grant.Read.{read_objects}
use yb_terraform_provider_po.Grant.Handlers.{apply, withdraw, grant_create_or_update, grant_delete}
use yb_terraform_provider_po.Grant.Atomic.{grant-IsAllOrNothing}
use yb_terraform_provider_po.Grant.Valid.{IsValid, validate_parameters_iff}
use yb_terraform_provider_po.Grant.Drift.{
  Granted, granted_row, Among, IsAbout, IsInSync, Differs, read_objects_cases,
}
use yb_terraform_provider_po.Prelude.{◌&&◌, ◌||◌}
use yb_terraform_provider_po.Postgres.{Value}
use yb_terraform_provider_po.Transaction.{start_transaction, directly, query_row, rolled_back}
use yb_terraform_provider_po.Catalog.{
  db_exists, row_exists, role_exists, schema_exists, public_role,
}
use yb_terraform_provider_po.Membership.Laws.{Answers}
use yb_terraform_provider_po.Grant.Query.{has_no_schema}
use yb_terraform_provider_po.Grant.Apply.{role_and_schema_exist, check_role_db_schema_exists}
use yb_terraform_provider_po.Grant.Exists.{check_role_db_schema_exists-eq-ok}
use yb_terraform_provider_po.Examples.Server.{sample_pq, sample_db, answer}
use yb_terraform_provider_po.Examples.Memberships.{no_data, start}

abbrev pub version : Version
version = record { major = 14; minor = 2; patch = 0 }

abbrev pub connection : Connection
connection = record {
  client = record {
    database_name = "postgres";
    username = "admin";
    database_username = "";
    superuser = false;
  };
  version = version;
}

abbrev pub machine : Machine (List String)
machine = record { world = []; resource = no_data }

abbrev text_of : String → String
text_of name =
    if name == "object_type"
    then "table"
    else if name == "schema"
    then "public"
    else if name == "role"
    then "app"
    else if name == "database"
    then "db"
    else ""

abbrev list_of : String → List String
list_of name =
    if name == "objects" then "t" ∷ [] else if name == "privileges" then "SELECT" ∷ [] else []

abbrev pub grant_data : ResourceData
grant_data = record no_data { get_string = text_of; get_list = list_of }

pub commits : CommitsOrRollsBack sample_db
commits s w w' e h = absurd (cc)

grant-IsAllOrNothing_example :
    IsAllOrNothing connection.client "db"
      (apply grant_data true)
      machine
      (grant_create_or_update connection grant_data true machine)
    × IsAllOrNothing connection.client "db"
        (withdraw grant_data)
        machine
        (grant_delete connection grant_data machine)
grant-IsAllOrNothing_example = grant-IsAllOrNothing connection grant_data true machine commits

validate_parameters_iff_example : (validate_parameters grant_data ≡ ok tt) ↔ IsValid grant_data
validate_parameters_iff_example = validate_parameters_iff grant_data

abbrev tables : List Granted
tables = ("s", []) ∷ ("t", "SELECT" ∷ "INSERT" ∷ []) ∷ []

read_objects_cases_example :
    ((read_objects grant_data (map granted_row tables) start ≡ (ok tt, start))
      × ((x : Granted) → Among x tables → IsAbout grant_data x.0 → IsInSync grant_data x.1))
    ⊎ ((x : Granted) × Among x tables
        × IsAbout grant_data x.0
        × Differs grant_data x.1
        × (read_objects grant_data (map granted_row tables) start
            ≡ set "privileges" (Setting.texts x.1) start))
read_objects_cases_example = read_objects_cases grant_data tables start

opened : start_transaction connection.client "db" [] ≡ ok []
unfolding start_transaction
opened = refl

surroundings :
    (Answers
      (sample_db.rows "SELECT datname FROM pg_database WHERE datname=$1" (Value.text "db" ∷ []) [])
      true)
    × (Answers
        (sample_db.rows "SELECT 1 FROM pg_roles WHERE rolname=$1" (Value.text "app" ∷ []) [])
        true)
    × (Answers
        (sample_db.rows "SELECT 1 FROM pg_namespace WHERE nspname=$1" (Value.text "public" ∷ []) [])
        true)
    × (check_role_db_schema_exists connection grant_data machine ≡ (ok true, machine))
unfolding answer check_role_db_schema_exists directly db_exists row_exists query_row rolled_back
    start_transaction role_and_schema_exist role_exists schema_exists
surroundings = (refl, refl, refl, refl)

check_role_db_schema_exists-eq-ok_example :
    (true ≡ (
      true
      && (("app" == public_role || true) && (has_no_schema "table" || ("public" == "" || true)))))
    × (machine ≡ machine)
check_role_db_schema_exists-eq-ok_example =
    check_role_db_schema_exists-eq-ok connection grant_data machine machine [] true true true true
      surroundings.0 (λ _. opened) (λ _. surroundings.1) (λ _. surroundings.2) surroundings.3
