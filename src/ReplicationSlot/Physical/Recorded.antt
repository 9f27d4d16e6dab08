-- ===== src/ReplicationSlot/Physical/Recorded.antt =====
-- The id of a physical replication slot says whether the statement has been committed.
use yb_terraform_provider_po.Prelude.{String, List, ◌≡◌, ◌⊎◌, inl, inr, refl, ap, ◌<>◌}
use yb_terraform_provider_po.Prelude.Result.{Result, ok, err, context, wrap, continue, ◌>>◌}
use yb_terraform_provider_po.Postgres.{Value, Server}
use yb_terraform_provider_po.Terraform.{ResourceData, set_id}
use yb_terraform_provider_po.Transaction.{
  Live, Machine, Txn, exec, autocommit, close, handler_set_id,
}
use yb_terraform_provider_po.Transaction.Atomic.{CommitsOrRollsBack, IsErr}
use yb_terraform_provider_po.Transaction.Autocommit.{IsAutocommitted, at_once, autocommit_cases}
use yb_terraform_provider_po.ReplicationSlot.Physical.{
  create_physical_slot, drop_physical_slot, physical_slot_create, physical_slot_delete,
}

module _ ⦃db : Server⦄ where
  -- The statement has been committed, and the id is the one given; or there is an error, with the
  -- committed state and the resource data as they were.
  abbrev pub IsRecorded :
      Txn (Unit {0}) → String → Machine db.World → Result (Unit {0}) × Machine db.World → Type 0
  IsRecorded body id m (r, m') =
      (IsErr r × (m' ≡ m))
      ⊎ ((l : Live db.Session) × (r ≡ ok tt)
          × (body (at_once m) ≡ (ok tt, l))
          × (db.finish l.session m.world ≡ (ok tt, m'.world))
          × (m'.resource ≡ set_id id m.resource))

  -- a statement leaves the resource data alone, whatever it returns
  autocommit-exec-resource :
      (sql : String) (args : List Value) (m : Machine db.World)
      → (autocommit (exec sql args) m).1.resource ≡ m.resource
  unfolding autocommit exec close
  autocommit-exec-resource sql args m = go _ _
    where
      go :
          (r : Result (Unit {0})) (s : db.Session)
          → (close "" m.world (r, record { session = s; resource = m.resource })).1.resource
            ≡ m.resource
      go (ok a) s = refl
      go (err e) s = refl

  recorded :
      (message id : String) (body : Txn (Unit {0})) (m : Machine db.World)
      → CommitsOrRollsBack db
      → (autocommit body m).1.resource ≡ m.resource
      → IsRecorded body id m ((context message (autocommit body) >> handler_set_id id) m)
        × IsRecorded body id m ((autocommit body >> handler_set_id id) m)
  unfolding handler_set_id
  recorded message id body m rolls same =
      go (autocommit body m).0 (autocommit body m).1 same (autocommit_cases body m rolls)
    where
      go :
          (r : Result (Unit {0})) (m' : Machine db.World)
          → m'.resource ≡ m.resource
          → IsAutocommitted body m (r, m')
          → IsRecorded body id m (continue (wrap message r) (λ _. handler_set_id id) m')
            × IsRecorded body id m (continue r (λ _. handler_set_id id) m')
      go (ok u) m' same (inl (e, p)) = absurd (cc)
      go (ok u) m' same (inr (a, l, e, p, q)) =
          (inr (l, refl, p, q, ap (set_id id) same), inr (l, refl, p, q, ap (set_id id) same))
      go (err x) m' same (inl (e, p)) =
          let back : m' ≡ m = cc in (inl ((message <> x, refl), back), inl ((x, refl), back))
      go (err x) m' same (inr (a, l, e, p, q)) = absurd (cc)

  -- Creating or deleting a physical replication slot: its statement has been committed and the id is
  -- the name, or empty after a deletion; or the handler returns an error, with the committed state and
  -- the resource data as they were; where a failed COMMIT rolls back.
  pub physical_slot-IsRecorded :
      (d : ResourceData) (m : Machine db.World)
      → CommitsOrRollsBack db
      → IsRecorded (create_physical_slot d) (d.get_string "name") m (physical_slot_create d m)
        × IsRecorded (drop_physical_slot d) "" m (physical_slot_delete d m)
  unfolding physical_slot_create physical_slot_delete
  physical_slot-IsRecorded d m rolls = (
    (recorded _ _ (create_physical_slot d) m rolls (autocommit-exec-resource _ _ m)).0,
    (recorded "" _ (drop_physical_slot d) m rolls (autocommit-exec-resource _ _ m)).1,
  )
