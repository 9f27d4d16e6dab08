-- ===== src/DefaultPrivileges/Atomic.antt =====
-- The handlers of postgresql_default_privileges change all or nothing.
use yb_terraform_provider_po.Prelude.Result.{◌>>◌}
use yb_terraform_provider_po.Postgres.{Pq, Server}
use yb_terraform_provider_po.Terraform.{ResourceData}
use yb_terraform_provider_po.Transaction.{
  Machine, Connection, transaction, rolled_back, handler_set_id,
}
use yb_terraform_provider_po.Transaction.Atomic.{
  CommitsOrRollsBack, IsAllOrNothing, transaction_cases, rolled_back-IsReading,
  handler_set_id-IsReading, bind-IsReading, then-IsAllOrNothing, lift-IsAllOrNothing,
}
use yb_terraform_provider_po.Privileges.{validate_privileges}
use yb_terraform_provider_po.DefaultPrivileges.{
  check_create, check_schemas_feature, generate_default_privileges_id,
}
use yb_terraform_provider_po.DefaultPrivileges.Read.{read_role_default_privileges}
use yb_terraform_provider_po.DefaultPrivileges.Handlers.{
  replace_privileges, remove_privileges, default_privileges_create, default_privileges_delete,
}

module _ ⦃db : Server⦄ where
  module _ ⦃pq : Pq⦄ where
    create-IsAllOrNothing :
        (c : Connection) (d : ResourceData) (m : Machine db.World)
        → CommitsOrRollsBack db
        → IsAllOrNothing c.client
            (d.get_string "database")
            (replace_privileges d)
            m
            (default_privileges_create c d m)
    unfolding default_privileges_create
    create-IsAllOrNothing c d m rolls =
        let client = c.client in
        let database = d.get_string "database" in
        let body = replace_privileges d in
        let work = transaction client database "" body in
        let end =
          handler_set_id (generate_default_privileges_id d)
          >> rolled_back client database (read_role_default_privileges d) in
        let valid = validate_privileges (d.get_string "object_type") (d.get_list "privileges") in
        lift-IsAllOrNothing client database body (check_create c d) _ m (
          lift-IsAllOrNothing client database body valid (work >> end) m (
            then-IsAllOrNothing client database body work end m
              (bind-IsReading _ _ (handler_set_id-IsReading _)
                (λ _. rolled_back-IsReading client database (read_role_default_privileges d)))
              (transaction_cases client database _ body m rolls)))

    delete-IsAllOrNothing :
        (c : Connection) (d : ResourceData) (m : Machine db.World)
        → CommitsOrRollsBack db
        → IsAllOrNothing c.client
            (d.get_string "database")
            (remove_privileges d)
            m
            (default_privileges_delete c d m)
    unfolding default_privileges_delete
    delete-IsAllOrNothing c d m rolls =
        lift-IsAllOrNothing c.client (d.get_string "database") (remove_privileges d)
          (check_schemas_feature c d) _ m
          (transaction_cases c.client (d.get_string "database") _ (remove_privileges d) m rolls)

    -- Creating or deleting default privileges, at any configuration and state: the revoking, and for a
    -- creation the granting behind it, is committed as a whole, or the handler returns an error and the
    -- committed state is the old one, where a failed COMMIT rolls back.
    pub default_privileges-IsAllOrNothing :
        (c : Connection) (d : ResourceData) (m : Machine db.World)
        → CommitsOrRollsBack db
        → IsAllOrNothing c.client
            (d.get_string "database")
            (replace_privileges d)
            m
            (default_privileges_create c d m)
          × IsAllOrNothing c.client
              (d.get_string "database")
              (remove_privileges d)
              m
              (default_privileges_delete c d m)
    default_privileges-IsAllOrNothing c d m rolls =
        (create-IsAllOrNothing c d m rolls, delete-IsAllOrNothing c d m rolls)
