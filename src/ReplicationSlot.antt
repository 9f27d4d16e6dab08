-- ===== src/ReplicationSlot.antt =====
-- postgresql_replication_slot (postgresql/resource_postgresql_replication_slot.go).
pub mod Physical
pub mod Atomic
use yb_terraform_provider_po.Prelude.{
  String, Bool, true, false, none, some, [], ◌∷◌, ◌<>◌, ◌==◌, if◌then◌else◌,
}
use yb_terraform_provider_po.Prelude.Result.{Result, ok, err, pure, fail, lift, ◌>>=◌, ◌>>◌}
use yb_terraform_provider_po.Postgres.{Value, Server, row, no_rows, failed, as_text}
use yb_terraform_provider_po.Terraform.{ResourceData, Setting}
use yb_terraform_provider_po.Transaction.{
  Connection, Client, Txn, Handler, exec, query_row, set, set_id, transaction, rolled_back,
  directly, handler_get_id, handler_set_id,
}
use yb_terraform_provider_po.Catalog.{db_exists}
use yb_terraform_provider_po.Qualified.{qualified_id, parse_id}

-- getDatabaseForReplicationSlot
unfoldable pub get_database_for_replication_slot : ResourceData → String → String
get_database_for_replication_slot d database_name =
    if d.get_ok "database" then d.get_string "database" else database_name

-- generateReplicationSlotID
unfoldable pub generate_replication_slot_id : ResourceData → String → String
generate_replication_slot_id d database_name = qualified_id database_name (d.get_string "name")

-- getDBReplicationSlotName, where the resource's id is the second argument
unfoldable pub get_db_replication_slot_name :
    ResourceData → String → Client → Result (String × String)
get_db_replication_slot_name d id client =
    if d.get_string "name" == ""
    then elim (parse_id id) [
      | none ↦ err (
          "Replication Slot ID " <> id
          <> " has not the expected format 'database.replication_slot'")
      | some names ↦ ok names
    ]
    else ok (get_database_for_replication_slot d client.database_name, d.get_string "name")

abbrev pub slot_database : Connection → ResourceData → String
slot_database c d = get_database_for_replication_slot d c.client.database_name

module _ ⦃db : Server⦄ where
  -- the transaction of resourcePostgreSQLReplicationSlotReadImpl; the id is that of the name just set
  unfoldable pub read_replication_slot : String → String → Txn (Unit {0})
  read_replication_slot database name = do
    answer ←
        query_row as_text
          "SELECT plugin FROM pg_catalog.pg_replication_slots WHERE slot_name = $1 AND database = $2"
          (Value.text name ∷ Value.text database ∷ [])
    elim answer [
      | no_rows ↦ set_id ""
      | failed e ↦ fail ("Error reading ReplicationSlot: " <> e)
      | row plugin ↦ do
        set "name" (Setting.text name)
        set "plugin" (Setting.text plugin)
        set "database" (Setting.text database)
        set_id (qualified_id database name)
    ]

  -- resourcePostgreSQLReplicationSlotRead and resourcePostgreSQLReplicationSlotReadImpl
  unfoldable pub replication_slot_read : Connection → ResourceData → Handler (Unit {0})
  replication_slot_read c d = do
    id ← handler_get_id
    names ← lift (get_db_replication_slot_name d id c.client)
    rolled_back c.client names.0 (read_replication_slot names.0 names.1)

  -- the transaction of resourcePostgreSQLReplicationSlotExists
  unfoldable pub replication_slot_there : String → String → Txn Bool
  replication_slot_there database name = do
    answer ←
        query_row as_text
          "SELECT slot_name FROM pg_catalog.pg_replication_slots WHERE slot_name = $1 and database = $2"
          (Value.text name ∷ Value.text database ∷ [])
    elim answer [ row _ ↦ pure true | no_rows ↦ pure false | failed e ↦ fail e ]

  -- resourcePostgreSQLReplicationSlotExists
  unfoldable pub replication_slot_exists : Connection → ResourceData → Handler Bool
  unfolding replication_slot_there
  replication_slot_exists c d = do
    id ← handler_get_id
    names ← lift (get_db_replication_slot_name d id c.client)
    exists ← directly (db_exists names.0)
    (if exists
        then rolled_back c.client names.0 (replication_slot_there names.0 names.1)
        else pure false)

  -- the transaction of resourcePostgreSQLReplicationSlotCreate
  unfoldable pub create_replication_slot : ResourceData → Txn (Unit {0})
  create_replication_slot d =
      exec "SELECT FROM pg_create_logical_replication_slot($1, $2)"
        (Value.text (d.get_string "name") ∷ Value.text (d.get_string "plugin") ∷ [])

  -- resourcePostgreSQLReplicationSlotCreate
  unfoldable pub replication_slot_create : Connection → ResourceData → Handler (Unit {0})
  replication_slot_create c d = do
    transaction c.client (slot_database c d) "Error creating ReplicationSlot: "
        (create_replication_slot d)
    handler_set_id (generate_replication_slot_id d (slot_database c d))
    replication_slot_read c d

  -- the transaction of resourcePostgreSQLReplicationSlotDelete
  unfoldable pub drop_replication_slot : ResourceData → Txn (Unit {0})
  drop_replication_slot d =
      exec "SELECT pg_drop_replication_slot($1)" (Value.text (d.get_string "name") ∷ [])

  -- resourcePostgreSQLReplicationSlotDelete
  unfoldable pub replication_slot_delete : Connection → ResourceData → Handler (Unit {0})
  replication_slot_delete c d = do
    transaction c.client (slot_database c d) "Error deleting ReplicationSlot: "
        (drop_replication_slot d)
    handler_set_id ""
