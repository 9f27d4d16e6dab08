-- ===== src/Publication/Setters.antt =====
-- The steps of an update of a publication (postgresql/resource_postgresql_publication.go: setPubName,
-- setPubOwner, setPubTables, setPubParams).
use yb_terraform_provider_po.Prelude.{
  String, Bool, not, List, [], ◌++◌, map, none, some, ◌<>◌, ◌==◌,
}
use yb_terraform_provider_po.Prelude.Result.{fail, lift, context, when, for_each, ◌>>=◌, ◌>>◌}
use yb_terraform_provider_po.Slices.{array_difference, is_unique_arr}
use yb_terraform_provider_po.Postgres.{Pq, Server}
use yb_terraform_provider_po.Quote.{quote_table_name}
use yb_terraform_provider_po.Terraform.{ResourceData}
use yb_terraform_provider_po.Transaction.{Txn, exec, set_id}
use yb_terraform_provider_po.Publication.{
  generate_publication_id, duplicated, get_publication_parameters,
}

module _ ⦃db : Server⦄ ⦃pq : Pq⦄ where
  -- setPubName
  unfoldable pub set_pub_name : ResourceData → Txn (Unit {0})
  set_pub_name d = when (d.has_change "name") (do
    context "Error updating publication name: " (
        exec
          ("ALTER PUBLICATION "
            <> pq.quote_identifier (d.old_string "name")
            <> " RENAME TO "
            <> pq.quote_identifier (d.get_string "name"))
          [])
    set_id (generate_publication_id d (d.get_string "database")))

  -- setPubOwner
  unfoldable pub set_pub_owner : ResourceData → Txn (Unit {0})
  set_pub_owner d = when (d.has_change "owner") (
      context "Error updating publication owner: " (
        exec ("ALTER PUBLICATION " <> d.get_string "name" <> " OWNER TO " <> d.get_string "owner")
          []))

  abbrev pub add_table : String → String → String
  add_table name table = "ALTER PUBLICATION " <> name <> " ADD TABLE " <> quote_table_name table

  abbrev pub drop_table : String → String → String
  drop_table name table = "ALTER PUBLICATION " <> name <> " DROP TABLE " <> quote_table_name table

  -- the loop of setPubTables over its queries
  abbrev pub alter_tables : List String → Txn (Unit {0})
  alter_tables queries =
      for_each queries λ query. context "could not alter publication table: " (exec query [])

  -- setPubTables
  unfoldable pub set_pub_tables : ResourceData → Txn (Unit {0})
  unfolding is_unique_arr array_difference quote_table_name
  set_pub_tables d =
      let old = d.old_list "tables" in
      let new = d.get_list "tables" in
      let name = d.get_string "name" in
      when (d.has_change "tables") (elim (is_unique_arr new) [
        | some elem ↦ fail (duplicated elem)
        | none ↦ alter_tables (
            map (add_table name) (array_difference new old)
            ++ map (drop_table name) (array_difference old new))
      ])

  -- setPubParams
  unfoldable pub set_pub_params : Bool → ResourceData → Bool → Txn (Unit {0})
  set_pub_params root_first d enabled = do
    params ←
        context "Error getting publication parameters: "
          (lift (get_publication_parameters root_first d enabled))
    when (not (params == "")) (
        context "Error updating publication parameters: "
          (exec ("ALTER PUBLICATION " <> d.get_string "name" <> " " <> params) []))
