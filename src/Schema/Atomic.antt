-- ===== src/Schema/Atomic.antt =====
-- The handlers of postgresql_schema change all or nothing.
use yb_terraform_provider_po.Prelude.{String, List, [], ◌∷◌, Bool-cases, ◌≡◌, ◌⊎◌, inl, inr, false}
use yb_terraform_provider_po.Prelude.Result.{Result, ok, ◌>>◌, bind-elim}
use yb_terraform_provider_po.Postgres.{Pq, Server}
use yb_terraform_provider_po.Terraform.{ResourceData}
use yb_terraform_provider_po.Transaction.{
  Live, Machine, Connection, start_transaction, transaction, transaction_if, handler_set_id,
}
use yb_terraform_provider_po.Transaction.Atomic.{
  CommitsOrRollsBack, IsErr, IsCommitted, IsAllOrNothing, transaction_cases, then-IsAllOrNothing,
}
use yb_terraform_provider_po.Transaction.Early.{
  IsAllOrNothingIf, then-IsAllOrNothingIf, transaction_if_cases,
}
use yb_terraform_provider_po.Transaction.Reading.{
  Reads, Reads-IsReading, lift-Reads, handler_get_id-Reads, handler_set_id-Reads, bind-Reads,
  rolled_back-Reads,
}
use yb_terraform_provider_po.Catalog.{schema_exists}
use yb_terraform_provider_po.Membership.{with_roles_granted}
use yb_terraform_provider_po.GoMap.{Iteration}
use yb_terraform_provider_po.Schema.{Policy, Acl, generate_schema_id}
use yb_terraform_provider_po.Schema.Read.{schema_read_impl}
use yb_terraform_provider_po.Schema.Handlers.{
  database_for, schema_create, creating_schema, schema_update, updating_schema, schema_delete,
  deleting_schema, drop_schema,
}

module _ ⦃db : Server⦄ ⦃acl : Acl⦄ where
  schema_read_impl-Reads : (c : Connection) (d : ResourceData) → Reads (schema_read_impl c d)
  unfolding schema_read_impl
  schema_read_impl-Reads c d =
      bind-Reads _ _ handler_get_id-Reads
        λ id. bind-Reads {A = String × String} _ _ (lift-Reads _) λ names. rolled_back-Reads _ _ _

  module _ ⦃pq : Pq⦄ ⦃it : Iteration⦄ where
    -- Creating or updating a schema, at any configuration and state and for every order of iteration:
    -- its statements are committed as a whole, or the handler returns an error and the committed state
    -- is the old one, where a failed COMMIT rolls back.
    pub schema-IsAllOrNothing :
        (c : Connection) (d : ResourceData) (old_policies policies : List Policy)
        (m : Machine db.World)
        → CommitsOrRollsBack db
        → IsAllOrNothing c.client
            (database_for c d)
            (creating_schema c d policies)
            m
            (schema_create c d policies m)
          × IsAllOrNothing c.client
              (database_for c d)
              (updating_schema c d old_policies policies)
              m
              (schema_update c d old_policies policies m)
    unfolding schema_create schema_update
    schema-IsAllOrNothing c d old_policies policies m rolls =
        let client = c.client in
        let database = database_for c d in
        let message : String = "Error committing schema: " in
        let creating = creating_schema c d policies in
        let updating = updating_schema c d old_policies policies in
        let end = handler_set_id (generate_schema_id d database) >> schema_read_impl c d in
        (
          then-IsAllOrNothing client database creating
              (transaction client database message creating) end m
              (Reads-IsReading end
                (bind-Reads _ _ (handler_set_id-Reads _) λ _. schema_read_impl-Reads c d))
              (transaction_cases client database message creating m rolls),
          then-IsAllOrNothing client database updating
              (transaction client database message updating) (schema_read_impl c d) m
              (Reads-IsReading _ (schema_read_impl-Reads c d))
              (transaction_cases client database message updating m rolls),
        )

module _ ⦃db : Server⦄ ⦃pq : Pq⦄ where
  -- the transaction returns early only where the schema does not exist
  early_missing :
      (d : ResourceData) (l l' : Live db.Session)
      → deleting_schema d l ≡ (ok false, l')
      → (u : Live db.Session) × (schema_exists (d.get_string "name") l ≡ (ok false, u))
  unfolding deleting_schema
  early_missing d l l' h =
      bind-elim (schema_exists (d.get_string "name")) _ l l' false h λ exists u p q.
        elim (Bool-cases exists) [
          | inr e ↦ (u, rw e at p)
          | inl e ↦ absurd (
              bind-elim (with_roles_granted (d.get_string "owner" ∷ []) (drop_schema d)) _ u l'
                false (rw e at q) λ _ v p' q'. absurd (cc))
        ]

  -- the committed state is the old one, and the schema was not there
  abbrev pub IsMissing : Connection → ResourceData → Machine db.World → Machine db.World → Type 0
  IsMissing c d m m' =
      (s : db.Session) × (u : Live db.Session) × (start_transaction c.client (database_for c d)
          m.world
        ≡ ok s)
      × (schema_exists (d.get_string "name") (record { session = s; resource = m.resource })
          ≡ (ok false, u))
      × (m'.world ≡ m.world)

  abbrev pub IsDeleted :
      Connection → ResourceData → Machine db.World → Result (Unit {0}) × Machine db.World → Type 0
  IsDeleted c d m (r, m') =
      IsCommitted c.client (database_for c d) (deleting_schema d) m m'.world
      ⊎ (IsMissing c d m m' ⊎ (IsErr r × (m'.world ≡ m.world)))

  deleted :
      (c : Connection) (d : ResourceData) (m : Machine db.World)
      (x : Result (Unit {0}) × Machine db.World)
      → IsAllOrNothingIf c.client (database_for c d) (deleting_schema d) m x
      → IsDeleted c d m x
  deleted c d m x (inl h) = inl h
  deleted c d m x (inr (inl (s, l, e, f, g))) =
      let (u, h) = early_missing d (record { session = s; resource = m.resource }) l f in
      inr (inl (s, u, e, h, g))
  deleted c d m x (inr (inr h)) = inr (inr h)

  -- Deleting a schema, at any configuration and state: the DROP under the temporary memberships is
  -- committed, or the schema does not exist, or the handler returns an error; in the last two cases the
  -- committed state is the old one, where a failed COMMIT rolls back.
  pub schema_delete-IsDeleted :
      (c : Connection) (d : ResourceData) (m : Machine db.World)
      → CommitsOrRollsBack db
      → IsDeleted c d m (schema_delete c d m)
  unfolding schema_delete
  schema_delete-IsDeleted c d m rolls =
      let message : String = "Error committing schema: " in
      let client = c.client in
      let database = database_for c d in
      let body = deleting_schema d in
      let h = transaction_if client database message body in
      deleted c d m ((h >> handler_set_id "") m) (
        then-IsAllOrNothingIf client database body h (handler_set_id "") m
          (Reads-IsReading _ (handler_set_id-Reads ""))
          (transaction_if_cases client database message body m rolls))
