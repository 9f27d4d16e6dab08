-- ===== src/Role/Atomic.antt =====
-- The handlers of postgresql_role change all or nothing.
use yb_terraform_provider_po.Prelude.{String}
use yb_terraform_provider_po.Postgres.{Pq, Server}
use yb_terraform_provider_po.Terraform.{ResourceData}
use yb_terraform_provider_po.Transaction.{Machine, Connection, transaction, handler_set_id}
use yb_terraform_provider_po.Transaction.Atomic.{
  CommitsOrRollsBack, IsAllOrNothing, transaction_cases, directly-IsReading,
  handler_set_id-IsReading, bind-IsReading, then-IsAllOrNothing,
}
use yb_terraform_provider_po.Role.Read.{role_read_impl}
use yb_terraform_provider_po.Role.Handlers.{
  create_steps, role_create, delete_steps, role_delete, update_steps, role_update,
}

module _ ⦃db : Server⦄ where
  module _ ⦃pq : Pq⦄ where
    role_create-IsAllOrNothing :
        (md5_hex : String → String) (c : Connection) (d : ResourceData) (m : Machine db.World)
        → CommitsOrRollsBack db
        → IsAllOrNothing c.client "" (create_steps c d) m (role_create md5_hex c d m)
    unfolding role_create
    role_create-IsAllOrNothing md5_hex c d m rolls =
        then-IsAllOrNothing c.client "" (create_steps c d) (transaction c.client "" _ _) _ m
          (bind-IsReading (handler_set_id (d.get_string "name")) _ (handler_set_id-IsReading _)
            (λ _. directly-IsReading (role_read_impl md5_hex c d)))
          (transaction_cases c.client "" _ (create_steps c d) m rolls)

    role_update-IsAllOrNothing :
        (md5_hex : String → String) (c : Connection) (d : ResourceData) (m : Machine db.World)
        → CommitsOrRollsBack db
        → IsAllOrNothing c.client "" (update_steps c d) m (role_update md5_hex c d m)
    unfolding role_update
    role_update-IsAllOrNothing md5_hex c d m rolls =
        then-IsAllOrNothing c.client "" (update_steps c d) (transaction c.client "" _ _) _ m
          (directly-IsReading (role_read_impl md5_hex c d))
          (transaction_cases c.client "" _ (update_steps c d) m rolls)

    role_delete-IsAllOrNothing :
        (c : Connection) (d : ResourceData) (m : Machine db.World)
        → CommitsOrRollsBack db
        → IsAllOrNothing c.client "" (delete_steps c d) m (role_delete c d m)
    unfolding role_delete
    role_delete-IsAllOrNothing c d m rolls =
        then-IsAllOrNothing c.client "" (delete_steps c d) (transaction c.client "" _ _) _ m
          (handler_set_id-IsReading "") (transaction_cases c.client "" _ (delete_steps c d) m rolls)

    -- Creating, updating or deleting a role, at any configuration and state and for any hash: the whole of
    -- its transaction succeeds and is committed, or there is an error and the committed state is the old
    -- one, where a failed COMMIT rolls back.
    pub role-IsAllOrNothing :
        (md5_hex : String → String) (c : Connection) (d : ResourceData) (m : Machine db.World)
        → CommitsOrRollsBack db
        → IsAllOrNothing c.client "" (create_steps c d) m (role_create md5_hex c d m)
          × IsAllOrNothing c.client "" (update_steps c d) m (role_update md5_hex c d m)
          × IsAllOrNothing c.client "" (delete_steps c d) m (role_delete c d m)
    role-IsAllOrNothing md5_hex c d m rolls = (
      role_create-IsAllOrNothing md5_hex c d m rolls,
      role_update-IsAllOrNothing md5_hex c d m rolls,
      role_delete-IsAllOrNothing c d m rolls,
    )
