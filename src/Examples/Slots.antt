-- ===== src/Examples/Slots.antt =====
-- Replication slots on the sample server.
use yb_terraform_provider_po.Prelude.{◌==◌, if◌then◌else◌}
use yb_terraform_provider_po.Terraform.{ResourceData}
use yb_terraform_provider_po.Transaction.Atomic.{IsAllOrNothing}
use yb_terraform_provider_po.ReplicationSlot.{
  slot_database, create_replication_slot, replication_slot_create, drop_replication_slot,
  replication_slot_delete,
}
use yb_terraform_provider_po.ReplicationSlot.Atomic.{replication_slot-IsAllOrNothing}
use yb_terraform_provider_po.ReplicationSlot.Physical.{
  create_physical_slot, drop_physical_slot, physical_slot_create, physical_slot_delete,
}
use yb_terraform_provider_po.ReplicationSlot.Physical.Recorded.{
  IsRecorded, physical_slot-IsRecorded,
}
use yb_terraform_provider_po.Examples.Server.{sample_db}
use yb_terraform_provider_po.Examples.Memberships.{no_data}
use yb_terraform_provider_po.Examples.Grants.{connection, machine, commits}

abbrev slot_data : ResourceData
slot_data = record no_data {
  get_string =
      λ name. if name == "name" then "slot" else if name == "plugin" then "test_decoding" else "";
}

replication_slot-IsAllOrNothing_example :
    IsAllOrNothing connection.client
      (slot_database connection slot_data)
      (create_replication_slot slot_data)
      machine
      (replication_slot_create connection slot_data machine)
    × IsAllOrNothing connection.client
        (slot_database connection slot_data)
        (drop_replication_slot slot_data)
        machine
        (replication_slot_delete connection slot_data machine)
replication_slot-IsAllOrNothing_example =
    replication_slot-IsAllOrNothing connection slot_data machine commits

physical_slot-IsRecorded_example :
    IsRecorded
      (create_physical_slot slot_data)
      "slot"
      machine
      (physical_slot_create slot_data machine)
    × IsRecorded (drop_physical_slot slot_data) "" machine (physical_slot_delete slot_data machine)
physical_slot-IsRecorded_example = physical_slot-IsRecorded slot_data machine commits
