-- ===== src/Catalog/Keeps.antt =====
-- The lookups and locks that leave the resource data alone.
use yb_terraform_provider_po.Prelude.{String, ◌==◌, ◌<>◌, ◌≡◌}
use yb_terraform_provider_po.Prelude.Result.{ok}
use yb_terraform_provider_po.Postgres.{Server, Scan, row, no_rows, failed}
use yb_terraform_provider_po.Transaction.Keeps.{
  Keeps, query_row-Keeps, exec-Keeps, context-Keeps, bind-Keeps, if-Keeps, pure-Keeps, fail-Keeps,
}
use yb_terraform_provider_po.Catalog.{pg_lock_role, get_role_oid, required, public_role}

module _ ⦃db : Server⦄ where
  pub required-Keeps :
      {A : Type 0} (missing message : String) (answer : Scan A)
      → Keeps (required missing message answer)
  required-Keeps missing message (row a) = pure-Keeps a
  required-Keeps missing message no_rows = fail-Keeps _ missing
  required-Keeps missing message (failed e) = fail-Keeps _ (message <> e)

  pub pg_lock_role-Keeps : (role : String) → Keeps (pg_lock_role role)
  unfolding pg_lock_role
  pg_lock_role-Keeps role = bind-Keeps _ _ (context-Keeps _ _ (exec-Keeps _ _)) λ _.
      bind-Keeps _ _ (context-Keeps _ _ (exec-Keeps _ _)) λ _. context-Keeps _ _ (exec-Keeps _ _)

  pub get_role_oid-Keeps : (role : String) → Keeps (get_role_oid role)
  unfolding get_role_oid
  get_role_oid-Keeps role =
      if-Keeps (role == public_role) _ _ (pure-Keeps 0)
        (bind-Keeps _ _ (query_row-Keeps _ _ _) λ answer. required-Keeps _ _ answer)

  -- a required row that is read is the one of the answer
  pub required-eq-ok :
      {S A : Type 0} (missing message : String) (answer : Scan A) (s t : S) (a : A)
      → required missing message answer s ≡ (ok a, t)
      → (answer ≡ row a) × (t ≡ s)
  required-eq-ok missing message (row b) s t a h = (cc, cc)
  required-eq-ok missing message no_rows s t a h = absurd (cc)
  required-eq-ok missing message (failed e) s t a h = absurd (cc)
