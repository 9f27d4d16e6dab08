-- ===== src/Extension/Atomic.antt =====
-- The handlers of postgresql_extension change all or nothing.
use yb_terraform_provider_po.Prelude.{String}
use yb_terraform_provider_po.Postgres.{Pq, Server}
use yb_terraform_provider_po.Terraform.{ResourceData}
use yb_terraform_provider_po.Transaction.{Machine, Connection}
use yb_terraform_provider_po.Transaction.Atomic.{CommitsOrRollsBack, IsAllOrNothing}
use yb_terraform_provider_po.Transaction.Reading.{
  Reads, lift-Reads, handler_get_id-Reads, handler_set_id-Reads, bind-Reads, rolled_back-Reads,
  checked-IsAllOrNothing,
}
use yb_terraform_provider_po.Extension.{check_extension_feature}
use yb_terraform_provider_po.Extension.Handlers.{
  extension_database, extension_read_impl, create_extension, extension_create, update_extension,
  extension_update, drop_extension, extension_delete,
}

module _ ⦃db : Server⦄ where
  extension_read_impl-Reads : (c : Connection) (d : ResourceData) → Reads (extension_read_impl c d)
  unfolding extension_read_impl
  extension_read_impl-Reads c d =
      bind-Reads _ _ handler_get_id-Reads
        λ id. bind-Reads {A = String × String} _ _ (lift-Reads _) λ names. rolled_back-Reads _ _ _

  module _ ⦃pq : Pq⦄ where
    -- Creating, updating or deleting an extension, at any configuration and state: the statements are
    -- committed as a whole, or the handler returns an error and the committed state is the old one, where
    -- a failed COMMIT rolls back.
    pub extension-IsAllOrNothing :
        (c : Connection) (d : ResourceData) (m : Machine db.World)
        → CommitsOrRollsBack db
        → IsAllOrNothing c.client
            (extension_database c d)
            (create_extension d)
            m
            (extension_create c d m)
          × IsAllOrNothing c.client
              (extension_database c d)
              (update_extension d)
              m
              (extension_update c d m)
          × IsAllOrNothing c.client
              (extension_database c d)
              (drop_extension d)
              m
              (extension_delete c d m)
    unfolding extension_create extension_update extension_delete
    extension-IsAllOrNothing c d m rolls =
        let database = extension_database c d in
        let check = check_extension_feature c in
        (
          checked-IsAllOrNothing c.client database "Error creating extension: " check
              (create_extension d) _ m
              (bind-Reads _ _ (handler_set_id-Reads _) λ _. extension_read_impl-Reads c d) rolls,
          checked-IsAllOrNothing c.client database "Error updating extension: " check
              (update_extension d) _ m (extension_read_impl-Reads c d) rolls,
          checked-IsAllOrNothing c.client database "Error deleting extension: " check
              (drop_extension d) _ m (handler_set_id-Reads "") rolls,
        )
