-- ===== src/Publication/Handlers.antt =====
-- The handlers of postgresql_publication (postgresql/resource_postgresql_publication.go:
-- resourcePostgreSQLPublicationCreate, -Read, -Update, -Delete). `root_first` is the order in which the
-- iteration over the map of the parameters puts its two entries.
use yb_terraform_provider_po.Prelude.{String, Bool, [], ◌<>◌, if◌then◌else◌}
use yb_terraform_provider_po.Prelude.Result.{lift, context, ◌>>=◌, ◌>>◌}
use yb_terraform_provider_po.Postgres.{Pq, Server}
use yb_terraform_provider_po.Features.{feature_supported, publish_via_root}
use yb_terraform_provider_po.Features
use yb_terraform_provider_po.Terraform.{ResourceData}
use yb_terraform_provider_po.Transaction.{
  Connection, Txn, Handler, exec, transaction, starts, handler_set_id,
}
use yb_terraform_provider_po.Publication.{
  get_database_for_publication, generate_publication_id, check_publication_feature,
  get_tables_for_publication, get_publication_parameters,
}
use yb_terraform_provider_po.Publication.Setters.{
  set_pub_name, set_pub_owner, set_pub_tables, set_pub_params,
}
use yb_terraform_provider_po.Publication.Read.{publication_read_impl}

abbrev pub via_root : Connection → Bool
via_root c = feature_supported Features.publish_via_root c.version

abbrev pub database_of : Connection → ResourceData → String
database_of c d = get_database_for_publication d c.client.database_name

module _ ⦃db : Server⦄ where
  -- resourcePostgreSQLPublicationRead
  unfoldable pub publication_read : Connection → ResourceData → Handler (Unit {0})
  unfolding publication_read_impl
  publication_read c d = publication_read_impl c d

  module _ ⦃pq : Pq⦄ where
    -- the transaction of resourcePostgreSQLPublicationUpdate
    unfoldable pub update_publication : Bool → Connection → ResourceData → Txn (Unit {0})
    update_publication root_first c d = do
      context "could not update publication owner: " (set_pub_owner d)
      context "could not update publication tables: " (set_pub_tables d)
      context "could not update publication tables: " (set_pub_params root_first d (via_root c))
      context "could not update publication name: " (set_pub_name d)

    -- resourcePostgreSQLPublicationUpdate
    unfoldable pub publication_update : Bool → Connection → ResourceData → Handler (Unit {0})
    publication_update root_first c d = do
      lift (check_publication_feature c)
      context "could not start transaction: " (starts c.client (database_of c d))
      transaction c.client (database_of c d) "Error updating publication: "
          (update_publication root_first c d)
      publication_read_impl c d

    -- the transaction of resourcePostgreSQLPublicationCreate
    unfoldable pub create_publication : ResourceData → String → String → Txn (Unit {0})
    create_publication d tables params = do
      context "Error creating Publication: "
          (exec ("CREATE PUBLICATION " <> d.get_string "name" <> " " <> tables <> " " <> params) [])
      context "could not set publication owner during creation: " (set_pub_owner d)

    -- resourcePostgreSQLPublicationCreate behind the checks and the texts of the statement
    unfoldable pub publication_create_with :
        Connection → ResourceData → String → String → Handler (Unit {0})
    publication_create_with c d tables params = do
      context "could not start transaction: " (starts c.client (database_of c d))
      transaction c.client (database_of c d) "Error creating Publication: "
          (create_publication d tables params)
      handler_set_id (generate_publication_id d (database_of c d))
      publication_read_impl c d

    -- resourcePostgreSQLPublicationCreate
    unfoldable pub publication_create : Bool → Connection → ResourceData → Handler (Unit {0})
    unfolding publication_create_with
    publication_create root_first c d = do
      lift (check_publication_feature c)
      tables ←
          context "could not get tables for publication: " (lift (get_tables_for_publication d))
      params ←
          context "could not get publication parameters: "
            (lift (get_publication_parameters root_first d (via_root c)))
      publication_create_with c d tables params

    -- the transaction of resourcePostgreSQLPublicationDelete
    unfoldable pub drop_publication : ResourceData → Txn (Unit {0})
    drop_publication d = context "could not execute sql: " (
        exec
          ("DROP PUBLICATION "
            <> pq.quote_identifier (d.get_string "name")
            <> " "
            <> (if d.get_bool "drop_cascade" then "CASCADE" else "RESTRICT"))
          [])

    -- resourcePostgreSQLPublicationDelete
    unfoldable pub publication_delete : Connection → ResourceData → Handler (Unit {0})
    publication_delete c d = do
      lift (check_publication_feature c)
      context "could not start transaction: " (starts c.client (database_of c d))
      transaction c.client (database_of c d) "Error deleting Publication: " (drop_publication d)
      handler_set_id ""
