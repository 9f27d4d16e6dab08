-- ===== src/GrantRole/Atomic.antt =====
-- The handlers of postgresql_grant_role change all or nothing.
use yb_terraform_provider_po.Prelude.{String, Bool, true, false, not, inr, refl, if◌then◌else◌}
use yb_terraform_provider_po.Prelude.Result.{◌>>◌, pure, fail}
use yb_terraform_provider_po.Postgres.{Pq, Server}
use yb_terraform_provider_po.Features.{feature_supported}
use yb_terraform_provider_po.Features
use yb_terraform_provider_po.Terraform.{ResourceData}
use yb_terraform_provider_po.Transaction.{
  Machine, Client, Txn, Handler, Connection, transaction, handler_set_id,
}
use yb_terraform_provider_po.Transaction.Atomic.{
  CommitsOrRollsBack, IsAllOrNothing, transaction_cases, directly-IsReading,
  handler_set_id-IsReading, bind-IsReading, then-IsAllOrNothing,
}
use yb_terraform_provider_po.GrantRole.{
  check_feature, read_grant_role, regrant, revoke_role, generate_grant_role_id, grant_role_create,
  grant_role_delete,
}

module _ ⦃db : Server⦄ ⦃pq : Pq⦄ where
  checked :
      {A : Type 0} (supported : Bool) (message : String) (client : Client) (body : Txn A)
      (h : Handler (Unit {0})) (m : Machine db.World)
      → IsAllOrNothing client "" body m (h m)
      → IsAllOrNothing client "" body m (((if not supported then fail message else pure tt) >> h) m)
  checked true message client body h m p = p
  checked false message client body h m p = inr ((message, refl), refl)

  -- Creating a membership: it is revoked and granted again and that is committed, or there is an error
  -- and the committed state is the old one; deleting it: it is revoked and that is committed, or there
  -- is an error and the committed state is the old one; where a failed COMMIT rolls back.
  pub grant_role-IsAllOrNothing :
      (c : Connection) (d : ResourceData) (m : Machine db.World)
      → CommitsOrRollsBack db
      → IsAllOrNothing c.client "" (regrant d) m (grant_role_create c d m)
        × IsAllOrNothing c.client "" (revoke_role d) m (grant_role_delete c d m)
  unfolding grant_role_create grant_role_delete check_feature
  grant_role-IsAllOrNothing c d m rolls =
      let supported = feature_supported Features.privileges c.version in
      let work = transaction c.client "" "could not commit transaction: " (regrant d) in
      (
        checked supported _ c.client (regrant d) _ m (
            then-IsAllOrNothing c.client "" (regrant d) work _ m
              (bind-IsReading (handler_set_id (generate_grant_role_id d)) _
                (handler_set_id-IsReading _) (λ _. directly-IsReading (read_grant_role d)))
              (transaction_cases c.client "" _ (regrant d) m rolls)),
        checked supported _ c.client (revoke_role d) _ m
            (transaction_cases c.client "" _ (revoke_role d) m rolls),
      )
