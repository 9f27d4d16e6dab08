-- ===== src/ReplicationSlot/Atomic.antt =====
-- The handlers of postgresql_replication_slot change all or nothing.
use yb_terraform_provider_po.Prelude.{String}
use yb_terraform_provider_po.Postgres.{Server}
use yb_terraform_provider_po.Terraform.{ResourceData}
use yb_terraform_provider_po.Transaction.{Machine, Connection}
use yb_terraform_provider_po.Transaction.Atomic.{CommitsOrRollsBack, IsAllOrNothing}
use yb_terraform_provider_po.Transaction.Reading.{
  Reads, lift-Reads, handler_get_id-Reads, handler_set_id-Reads, bind-Reads, rolled_back-Reads,
  followed-IsAllOrNothing,
}
use yb_terraform_provider_po.ReplicationSlot.{
  slot_database, replication_slot_read, create_replication_slot, replication_slot_create,
  drop_replication_slot, replication_slot_delete,
}

module _ ⦃db : Server⦄ where
  replication_slot_read-Reads :
      (c : Connection) (d : ResourceData) → Reads (replication_slot_read c d)
  unfolding replication_slot_read
  replication_slot_read-Reads c d =
      bind-Reads _ _ handler_get_id-Reads
        λ id. bind-Reads {A = String × String} _ _ (lift-Reads _) λ names. rolled_back-Reads _ _ _

  -- Creating or deleting a replication slot, at any configuration and state: the one statement is
  -- committed, or the handler returns an error and the committed state is the old one, where a failed
  -- COMMIT rolls back.
  pub replication_slot-IsAllOrNothing :
      (c : Connection) (d : ResourceData) (m : Machine db.World)
      → CommitsOrRollsBack db
      → IsAllOrNothing c.client
          (slot_database c d)
          (create_replication_slot d)
          m
          (replication_slot_create c d m)
        × IsAllOrNothing c.client
            (slot_database c d)
            (drop_replication_slot d)
            m
            (replication_slot_delete c d m)
  unfolding replication_slot_create replication_slot_delete
  replication_slot-IsAllOrNothing c d m rolls =
      let database = slot_database c d in
      (
        followed-IsAllOrNothing c.client database "Error creating ReplicationSlot: "
            (create_replication_slot d) _ m
            (bind-Reads _ _ (handler_set_id-Reads _) λ _. replication_slot_read-Reads c d) rolls,
        followed-IsAllOrNothing c.client database "Error deleting ReplicationSlot: "
            (drop_replication_slot d) _ m (handler_set_id-Reads "") rolls,
      )
