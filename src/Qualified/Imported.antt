-- ===== src/Qualified/Imported.antt =====
-- Importing a resource by its id (postgresql/resource_postgresql_schema.go: getDBSchemaName,
-- postgresql/resource_postgresql_publication.go: getDBPublicationName,
-- postgresql/resource_postgresql_extension.go: getDBExtName,
-- postgresql/resource_postgresql_replication_slot.go: getDBReplicationSlotName).
use yb_terraform_provider_po.Prelude.{
  String, ◌<>◌, ◌≡◌, ◌↔◌, refl, ap, sym, ◌∙◌, Option, none, some,
}
use yb_terraform_provider_po.Prelude.Result.{Result, ok, err}
use yb_terraform_provider_po.Strings.Laws.{Lacks}
use yb_terraform_provider_po.Terraform.{ResourceData}
use yb_terraform_provider_po.Transaction.{Client}
use yb_terraform_provider_po.Qualified.{qualified_id, parse_id}
use yb_terraform_provider_po.Qualified.Laws.{parse_id_iff}
use yb_terraform_provider_po.Schema.{get_db_schema_name}
use yb_terraform_provider_po.Extension.{get_db_ext_name}
use yb_terraform_provider_po.Publication.{get_db_publication_name}
use yb_terraform_provider_po.ReplicationSlot.{get_db_replication_slot_name}

-- the id is the two names joined by a dot, and neither has a dot in it
abbrev pub Names : String → String → String → Type 0
Names id database name = (id ≡ qualified_id database name) × Lacks b'.' database × Lacks b'.' name

-- a result of the parse, with an error for none
abbrev or_error : String → Option (String × String) → Result (String × String)
or_error e none = err e
or_error e (some names) = ok names

or_error-eq :
    (e : String) (o : Option (String × String)) (names : String × String)
    → or_error e o ≡ ok names
    → o ≡ some names
or_error-eq e none names h = absurd (cc)
or_error-eq e (some n) names h = cc

module _ (d : ResourceData) (id : String) (client : Client) (database name : String) where
  schema_parsed :
      d.get_string "name" ≡ ""
      → (e : String) × (get_db_schema_name d id client.database_name ≡ or_error e (parse_id id))
  unfolding get_db_schema_name
  schema_parsed h =
      ("schema ID " <> id <> " has not the expected format 'database.schema'", rw h refl)

  publication_parsed :
      d.get_string "name" ≡ ""
      → (e : String) × (get_db_publication_name d id client ≡ or_error e (parse_id id))
  unfolding get_db_publication_name
  publication_parsed h = (
    "Publication ID " <> id <> " has not the expected format 'database.publication_name'",
    rw h refl,
  )

  extension_parsed :
      d.get_string "name" ≡ ""
      → (e : String) × (get_db_ext_name d id client ≡ or_error e (parse_id id))
  unfolding get_db_ext_name
  extension_parsed h =
      ("extension ID " <> id <> " has not the expected format 'database.extension'", rw h refl)

  slot_parsed :
      d.get_string "name" ≡ ""
      → (e : String) × (get_db_replication_slot_name d id client ≡ or_error e (parse_id id))
  unfolding get_db_replication_slot_name
  slot_parsed h = (
    "Replication Slot ID " <> id <> " has not the expected format 'database.replication_slot'",
    rw h refl,
  )

  -- A result that is the parse gives the names exactly when they make up the id.
  parsed_iff :
      (r : Result (String × String)) (e : String)
      → r ≡ or_error e (parse_id id)
      → (r ≡ ok (database, name)) ↔ Names id database name
  parsed_iff r e p =
      let parsed = parse_id_iff id database name in
      (
        λ q. parsed.0 (or_error-eq e (parse_id id) (database, name) (sym p ∙ q)),
        λ n. p ∙ ap (or_error e) (parsed.1 n),
      )

  -- A schema, a publication, an extension or a replication slot that is imported, so that its name is
  -- not known yet, gets a database and a name from an id exactly when the id is the two joined by a dot
  -- and neither has a dot in it.
  pub imported_iff :
      d.get_string "name" ≡ ""
      → ((get_db_schema_name d id client.database_name ≡ ok (database, name))
          ↔ Names id database name)
        × ((get_db_publication_name d id client ≡ ok (database, name)) ↔ Names id database name)
        × ((get_db_ext_name d id client ≡ ok (database, name)) ↔ Names id database name)
        × ((get_db_replication_slot_name d id client ≡ ok (database, name))
            ↔ Names id database name)
  imported_iff h =
      let (e, p) = schema_parsed h in
      let (f, q) = publication_parsed h in
      let (g, r) = extension_parsed h in
      let (k, t) = slot_parsed h in
      (parsed_iff _ e p, parsed_iff _ f q, parsed_iff _ g r, parsed_iff _ k t)
