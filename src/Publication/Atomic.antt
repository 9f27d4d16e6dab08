-- ===== src/Publication/Atomic.antt =====
-- The handlers of postgresql_publication change all or nothing.
use yb_terraform_provider_po.Prelude.{String, Bool, ◌≡◌, ◌⊎◌, inl, inr, refl}
use yb_terraform_provider_po.Prelude.Result.{Result, ok, err, lift, context, ◌>>=◌, ◌>>◌}
use yb_terraform_provider_po.Postgres.{Pq, Server}
use yb_terraform_provider_po.Terraform.{ResourceData}
use yb_terraform_provider_po.Transaction.{Machine, Connection, transaction, handler_set_id, starts}
use yb_terraform_provider_po.Transaction.Atomic.{
  CommitsOrRollsBack, IsErr, IsCommitted, IsAllOrNothing, transaction_cases,
  handler_set_id-IsReading, bind-IsReading, then-IsAllOrNothing, lift-IsAllOrNothing,
}
use yb_terraform_provider_po.Transaction.Reading.{
  Reads, Reads-IsReading, lift-Reads, context-Reads, starts-Reads, handler_get_id-Reads, bind-Reads,
  rolled_back-Reads, starts-Leaves, before-IsAllOrNothing,
}
use yb_terraform_provider_po.Publication.{
  check_publication_feature, get_tables_for_publication, get_publication_parameters,
  generate_publication_id,
}
use yb_terraform_provider_po.Publication.Read.{publication_read_impl}
use yb_terraform_provider_po.Publication.Handlers.{
  via_root, database_of, publication_update, update_publication, publication_create,
  publication_create_with, create_publication, publication_delete, drop_publication,
}

module _ ⦃db : Server⦄ where
  publication_read_impl-Reads :
      (c : Connection) (d : ResourceData) → Reads (publication_read_impl c d)
  unfolding publication_read_impl
  publication_read_impl-Reads c d = bind-Reads _ _ (lift-Reads _) λ _.
      bind-Reads _ _ handler_get_id-Reads λ id.
        bind-Reads {A = String × String} _ _ (context-Reads _ _ (lift-Reads _)) λ names.
          bind-Reads _ _ (context-Reads _ _ (starts-Reads _ _)) λ _. rolled_back-Reads _ _ _

  module _ ⦃pq : Pq⦄ where
    publication_update-IsAllOrNothing :
        (root_first : Bool) (c : Connection) (d : ResourceData) (m : Machine db.World)
        → CommitsOrRollsBack db
        → IsAllOrNothing c.client
            (database_of c d)
            (update_publication root_first c d)
            m
            (publication_update root_first c d m)
    unfolding publication_update
    publication_update-IsAllOrNothing root_first c d m rolls =
        let client = c.client in
        let database = database_of c d in
        let body = update_publication root_first c d in
        let work = transaction client database "Error updating publication: " body in
        let started = context "could not start transaction: " (starts client database) in
        lift-IsAllOrNothing client database body (check_publication_feature c) _ m (
          before-IsAllOrNothing client database body started (work >> publication_read_impl c d) m
            (starts-Leaves "could not start transaction: " client database)
            (then-IsAllOrNothing client database body work (publication_read_impl c d) m
              (Reads-IsReading _ (publication_read_impl-Reads c d))
              (transaction_cases client database _ body m rolls)))

    publication_delete-IsAllOrNothing :
        (c : Connection) (d : ResourceData) (m : Machine db.World)
        → CommitsOrRollsBack db
        → IsAllOrNothing c.client
            (database_of c d)
            (drop_publication d)
            m
            (publication_delete c d m)
    unfolding publication_delete
    publication_delete-IsAllOrNothing c d m rolls =
        let client = c.client in
        let database = database_of c d in
        let body = drop_publication d in
        let work = transaction client database "Error deleting Publication: " body in
        let started = context "could not start transaction: " (starts client database) in
        lift-IsAllOrNothing client database body (check_publication_feature c) _ m (
          before-IsAllOrNothing client database body started (work >> handler_set_id "") m
            (starts-Leaves "could not start transaction: " client database)
            (then-IsAllOrNothing client database body work (handler_set_id "") m
              (handler_set_id-IsReading "") (transaction_cases client database _ body m rolls)))

    create_with-IsAllOrNothing :
        (c : Connection) (d : ResourceData) (tables params : String) (m : Machine db.World)
        → CommitsOrRollsBack db
        → IsAllOrNothing c.client
            (database_of c d)
            (create_publication d tables params)
            m
            (publication_create_with c d tables params m)
    unfolding publication_create_with
    create_with-IsAllOrNothing c d tables params m rolls =
        let client = c.client in
        let database = database_of c d in
        let body = create_publication d tables params in
        let work = transaction client database "Error creating Publication: " body in
        let started = context "could not start transaction: " (starts client database) in
        let end =
          handler_set_id (generate_publication_id d database) >> publication_read_impl c d in
        before-IsAllOrNothing client database body started (work >> end) m
          (starts-Leaves "could not start transaction: " client database)
          (then-IsAllOrNothing client database body work end m
            (bind-IsReading _ _ (handler_set_id-IsReading _)
              (λ _. Reads-IsReading _ (publication_read_impl-Reads c d)))
            (transaction_cases client database _ body m rolls))

    -- for a creation: the tables and the parameters can be put into texts and the statements with
    -- them are committed, or there is an error and the committed state is the old one
    abbrev pub IsCreated :
        Bool
        → Connection
        → ResourceData
        → Machine db.World
        → Result (Unit {0}) × Machine db.World
        → Type 0
    IsCreated root_first c d m (r, m') =
        ((tables : String) × (params : String) × (get_tables_for_publication d ≡ ok tables)
          × (get_publication_parameters root_first d (via_root c) ≡ ok params)
          × IsCommitted c.client (database_of c d) (create_publication d tables params) m m'.world)
        ⊎ (IsErr r × (m'.world ≡ m.world))

    publication_create-IsCreated :
        (root_first : Bool) (c : Connection) (d : ResourceData) (m : Machine db.World)
        → CommitsOrRollsBack db
        → IsCreated root_first c d m (publication_create root_first c d m)
    unfolding publication_create
    publication_create-IsCreated root_first c d m rolls =
        checked (check_publication_feature c) (get_tables_for_publication d)
          (get_publication_parameters root_first d (via_root c)) refl refl
      where
        checked :
            (supported : Result (Unit {0})) (rt rp : Result String)
            → get_tables_for_publication d ≡ rt
            → get_publication_parameters root_first d (via_root c) ≡ rp
            → IsCreated root_first c d m (
                (lift supported
                    >> (context "could not get tables for publication: " (lift rt) >>= λ tables.
                        context "could not get publication parameters: " (lift rp) >>= λ params.
                        publication_create_with c d tables params))
                  m)
        checked (err e) rt rp et ep = inr ((e, refl), refl)
        checked (ok u) (err e) rp et ep = inr ((_, refl), refl)
        checked (ok u) (ok tables) (err e) et ep = inr ((_, refl), refl)
        checked (ok u) (ok tables) (ok params) et ep =
            elim (create_with-IsAllOrNothing c d tables params m rolls) [
              | inl committed ↦ inl (tables, params, et, ep, committed)
              | inr failed ↦ inr failed
            ]

    -- Creating, updating or deleting a publication, at any configuration and state and for both orders of
    -- the parameters: its statements are committed as a whole, or the handler returns an error and the
    -- committed state is the old one, where a failed COMMIT rolls back. For a creation that is
    -- committed, the statements are those of the tables and the parameters as texts.
    pub publication-IsAllOrNothing :
        (root_first : Bool) (c : Connection) (d : ResourceData) (m : Machine db.World)
        → CommitsOrRollsBack db
        → IsCreated root_first c d m (publication_create root_first c d m)
          × IsAllOrNothing c.client
              (database_of c d)
              (update_publication root_first c d)
              m
              (publication_update root_first c d m)
          × IsAllOrNothing c.client
              (database_of c d)
              (drop_publication d)
              m
              (publication_delete c d m)
    publication-IsAllOrNothing root_first c d m rolls = (
      publication_create-IsCreated root_first c d m rolls,
      publication_update-IsAllOrNothing root_first c d m rolls,
      publication_delete-IsAllOrNothing c d m rolls,
    )
