-- ===== src/ReplicationSlot/Physical.antt =====
-- postgresql_physical_replication_slot (postgresql/resource_postgresql_physical_replication_slot.go).
pub mod Recorded
use yb_terraform_provider_po.Prelude.{String, Bool, true, false, [], ◌∷◌, ◌<>◌}
use yb_terraform_provider_po.Prelude.Result.{Result, ok, err, pure, fail, context, ◌>>=◌, ◌>>◌}
use yb_terraform_provider_po.Postgres.{Value, Row, Server, row, no_rows, failed, scan_error}
use yb_terraform_provider_po.Terraform.{ResourceData, Setting}
use yb_terraform_provider_po.Transaction.{
  Txn, Handler, exec, query_row, set, autocommit, directly, handler_get_id, handler_set_id,
}

-- Scan(&unused) into an int
abbrev pub as_unused_int : Row → Result (Unit {0})
as_unused_int (Value.int n ∷ []) = ok tt
as_unused_int _ = err scan_error

module _ ⦃db : Server⦄ where
  -- the statements of the two handlers that change the server
  abbrev pub create_physical_slot : ResourceData → Txn (Unit {0})
  create_physical_slot d =
      exec "SELECT FROM pg_create_physical_replication_slot($1)"
        (Value.text (d.get_string "name") ∷ [])

  abbrev pub drop_physical_slot : ResourceData → Txn (Unit {0})
  drop_physical_slot d =
      exec "SELECT pg_drop_replication_slot($1)" (Value.text (d.get_string "name") ∷ [])

  -- resourcePostgreSQLPhysicalReplicationSlotCreate
  unfoldable pub physical_slot_create : ResourceData → Handler (Unit {0})
  physical_slot_create d = do
    context ("could not create physical ReplicationSlot " <> d.get_string "name" <> ": ")
        (autocommit (create_physical_slot d))
    handler_set_id (d.get_string "name")

  -- resourcePostgreSQLPhysicalReplicationSlotExists, for the id `name`
  unfoldable pub physical_slot_there : String → Txn Bool
  physical_slot_there name = do
    answer ←
        query_row as_unused_int
          "SELECT 1 FROM pg_catalog.pg_replication_slots WHERE slot_name = $1 and slot_type = 'physical'"
          (Value.text name ∷ [])
    elim answer [ row _ ↦ pure true | no_rows ↦ pure false | failed e ↦ fail e ]

  -- resourcePostgreSQLPhysicalReplicationSlotExists
  unfoldable pub physical_slot_exists : Handler Bool
  unfolding physical_slot_there
  physical_slot_exists = do id ← handler_get_id; directly (physical_slot_there id)

  -- resourcePostgreSQLPhysicalReplicationSlotRead
  unfoldable pub physical_slot_read : Handler (Unit {0})
  physical_slot_read = do id ← handler_get_id; directly (set "name" (Setting.text id))

  -- resourcePostgreSQLPhysicalReplicationSlotDelete
  unfoldable pub physical_slot_delete : ResourceData → Handler (Unit {0})
  physical_slot_delete d = do autocommit (drop_physical_slot d); handler_set_id ""
