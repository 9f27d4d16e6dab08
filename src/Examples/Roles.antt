-- ===== src/Examples/Roles.antt =====
-- postgresql_role on the sample server.
use yb_terraform_provider_po.Prelude.{
  String, false, List, [], ◌∷◌, ◌++◌, ◌<>◌, ◌==◌, ◌≡◌, inl, inr, refl, arith, if◌then◌else◌,
}
use yb_terraform_provider_po.Prelude.Result.{ok, err}
use yb_terraform_provider_po.Prelude.Int.{pos, itoa}
use yb_terraform_provider_po.Strings.{has_prefix, join, contains, replace}
use yb_terraform_provider_po.Terraform.{ResourceData}
use yb_terraform_provider_po.Terraform
use yb_terraform_provider_po.Transaction.{Live, exec, query, set_id, start_transaction}
use yb_terraform_provider_po.Transaction.Atomic.{IsAllOrNothing}
use yb_terraform_provider_po.Role.Settings.{
  quote_parts, set_role_name, set_role_password, set_role_bypass_rls, set_role_conn_limit,
  set_role_option, set_role_create_db, set_role_create_role, set_role_inherit, set_role_login,
  set_role_replication, set_role_superuser, set_role_valid_until, revoke_roles, grant_roles,
  alter_search_path, scan_roles,
}
use yb_terraform_provider_po.Role.Renamed.{after_name, role_update-renamed}
use yb_terraform_provider_po.Catalog.{pg_lock_role}
use yb_terraform_provider_po.Role.Read.{
  read_search_path, read_statement_timeout, read_idle_in_transaction_session_timeout,
}
use yb_terraform_provider_po.Role.Handlers.{
  alter_steps, finish_role, create_steps, role_create, update_steps, role_update, delete_steps,
  role_delete,
}
use yb_terraform_provider_po.Role.Atomic.{role-IsAllOrNothing}
use yb_terraform_provider_po.Role.SearchPath.{read_search_path-quote_parts}
use yb_terraform_provider_po.Role.Timeouts.{read_timeout-itoa}
use yb_terraform_provider_po.Examples.Server.{sample_pq, sample_db, answer}
use yb_terraform_provider_po.Examples.Memberships.{no_data}
use yb_terraform_provider_po.Examples.Grants.{connection, machine, commits}

-- the role "old" is renamed to "new", with a search path that is refused
abbrev role_data : ResourceData
role_data = record no_data {
  get_string = λ name. if name == "name" then "new" else "";
  old_string = λ name. if name == "name" then "old" else "";
  has_change = λ name. name == "name";
  get_list = λ name. if name == "search_path" then "a, b" ∷ [] else [];
}

abbrev hash : String → String
hash s = s

role-IsAllOrNothing_example :
    IsAllOrNothing connection.client ""
      (create_steps connection role_data)
      machine
      (role_create hash connection role_data machine)
    × (IsAllOrNothing connection.client ""
        (update_steps connection role_data)
        machine
        (role_update hash connection role_data machine))
    × (IsAllOrNothing connection.client ""
        (delete_steps connection role_data)
        machine
        (role_delete connection role_data machine))
role-IsAllOrNothing_example = role-IsAllOrNothing hash connection role_data machine commits

abbrev parts : List String
parts = "a" ∷ "b c" ∷ []

accepted : quote_parts parts ≡ ok ("\"a\"" ∷ "\"b c\"" ∷ [])
unfolding quote_parts contains replace
accepted = refl

other : has_prefix "role=admin" "search_path" ≡ false
unfolding has_prefix
other = refl

read_search_path-quote_parts_example :
    read_search_path
      (("role=admin" ∷ []) ++ (("search_path=" <> join ("a" ∷ "\"b c\"" ∷ []) ", ") ∷ []))
    ≡ parts
read_search_path-quote_parts_example =
    read_search_path-quote_parts parts ("\"a\"" ∷ "\"b c\"" ∷ []) ("a" ∷ "\"b c\"" ∷ [])
      ("role=admin" ∷ []) [] (cc) accepted (omega arith) (inl refl, (inr refl, tt)) (other, tt)

unrelated :
    (has_prefix "search_path=a" "statement_timeout" ≡ false)
    × (has_prefix "search_path=a" "idle_in_transaction_session_timeout" ≡ false)
unfolding has_prefix
unrelated = (refl, refl)

read_timeout-itoa_example :
    ((read_statement_timeout
          (("search_path=a" ∷ []) ++ (("statement_timeout=" <> itoa (pos 30000)) ∷ []))
        ≡ ok (pos 30000))
      × (read_statement_timeout ("search_path=a" ∷ []) ≡ ok (pos 0)))
    × (read_idle_in_transaction_session_timeout (
          ("search_path=a" ∷ [])
          ++ (("idle_in_transaction_session_timeout=" <> itoa (pos 30000)) ∷ []))
        ≡ ok (pos 30000))
    × (read_idle_in_transaction_session_timeout ("search_path=a" ∷ []) ≡ ok (pos 0))
read_timeout-itoa_example =
    read_timeout-itoa (pos 30000) ("search_path=a" ∷ []) ("search_path=a" ∷ []) [] (omega arith)
      (unrelated.0, tt) (unrelated.1, tt)

abbrev locked : Live (List String)
locked = (pg_lock_role "old" (record { session = []; resource = no_data })).1

abbrev renamed : Live (List String)
renamed = (set_role_name role_data locked).1

abbrev refused : Live (List String)
refused = (after_name connection role_data renamed).1

abbrev refusal : String
refusal = "search_path cannot contain `, `: a, b"

steps :
    (pg_lock_role "old" (record { session = []; resource = no_data }) ≡ (ok tt, locked))
    × (set_role_name role_data locked ≡ (ok tt, renamed))
    × (after_name connection role_data renamed ≡ (err refusal, refused))
unfolding pg_lock_role exec set_role_name alter_steps revoke_roles finish_role set_role_password
    set_role_bypass_rls set_role_conn_limit set_role_option set_role_create_db set_role_create_role
    set_role_inherit set_role_login set_role_replication set_role_superuser set_role_valid_until
    grant_roles alter_search_path quote_parts contains query answer scan_roles set_id
steps = (refl, refl, refl)

started : start_transaction connection.client "" [] ≡ ok []
unfolding start_transaction
started = refl

role_update-renamed_example :
    role_update hash connection role_data machine
    ≡ (err refusal, record { world = []; resource = Terraform.set_id "new" no_data })
role_update-renamed_example =
    role_update-renamed hash connection role_data machine [] locked renamed refused refusal refl
      started steps.0 steps.1 steps.2
