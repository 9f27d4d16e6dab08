-- ===== src/Grant/Atomic.antt =====
-- The handlers of postgresql_grant change all or nothing.
use yb_terraform_provider_po.Prelude.{Bool}
use yb_terraform_provider_po.Prelude.Result.{◌>>◌}
use yb_terraform_provider_po.Postgres.{Pq, Server}
use yb_terraform_provider_po.Terraform.{ResourceData}
use yb_terraform_provider_po.Transaction.{
  Machine, Connection, transaction, rolled_back, handler_set_id,
}
use yb_terraform_provider_po.Transaction.Atomic.{
  CommitsOrRollsBack, IsAllOrNothing, transaction_cases, rolled_back-IsReading,
  handler_set_id-IsReading, bind-IsReading, then-IsAllOrNothing, lift-IsAllOrNothing,
}
use yb_terraform_provider_po.Grant.Query.{generate_grant_id}
use yb_terraform_provider_po.Grant.Apply.{validate_feature_support, validate_parameters}
use yb_terraform_provider_po.Grant.Read.{read_role_privileges}
use yb_terraform_provider_po.Grant.Handlers.{apply, withdraw, grant_create_or_update, grant_delete}

module _ ⦃db : Server⦄ where
  module _ ⦃pq : Pq⦄ where
    -- Creating or updating a grant, at any configuration and state: either the revoking and granting
    -- of the privileges succeeds and the new state is what its commit leaves, or the handler returns
    -- an error and the committed state is the old one; deleting it: the privileges are revoked and that
    -- is committed, or there is an error and the committed state is the old one; where a failed COMMIT
    -- rolls back.
    pub grant-IsAllOrNothing :
        (c : Connection) (d : ResourceData) (use_previous : Bool) (m : Machine db.World)
        → CommitsOrRollsBack db
        → IsAllOrNothing c.client
            (d.get_string "database")
            (apply d use_previous)
            m
            (grant_create_or_update c d use_previous m)
          × IsAllOrNothing c.client (d.get_string "database") (withdraw d) m (grant_delete c d m)
    unfolding grant_create_or_update grant_delete
    grant-IsAllOrNothing c d use_previous m rolls =
        let client = c.client in
        let database = d.get_string "database" in
        let body = apply d use_previous in
        let read = rolled_back client database (read_role_privileges d) in
        let work = transaction client database "could not commit transaction: " body in
        let end = handler_set_id (generate_grant_id d) >> read in
        let supported = validate_feature_support c d in
        (
          lift-IsAllOrNothing client database body supported _ m (
              lift-IsAllOrNothing client database body (validate_parameters d) (work >> end) m (
                then-IsAllOrNothing client database body work end m
                  (bind-IsReading _ _ (handler_set_id-IsReading _)
                    (λ _. rolled_back-IsReading client database (read_role_privileges d)))
                  (transaction_cases client database _ body m rolls))),
          lift-IsAllOrNothing client database (withdraw d) supported _ m
              (transaction_cases client database _ (withdraw d) m rolls),
        )
