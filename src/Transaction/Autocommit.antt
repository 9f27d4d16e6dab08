-- ===== src/Transaction/Autocommit.antt =====
-- What a statement outside a transaction leaves.
use yb_terraform_provider_po.Prelude.{◌≡◌, ◌⊎◌, inl, inr, refl, ◌<>◌}
use yb_terraform_provider_po.Prelude.Result.{Result, ok, err}
use yb_terraform_provider_po.Postgres.{Server}
use yb_terraform_provider_po.Transaction.{Live, Machine, Txn, close, autocommit}
use yb_terraform_provider_po.Transaction.Atomic.{CommitsOrRollsBack, IsErr}

module _ ⦃db : Server⦄ where
  -- the body on a connection to the committed state
  abbrev pub at_once : Machine db.World → Live db.Session
  at_once m = record { session = db.direct m.world; resource = m.resource }

  -- it fails and nothing is committed, or it succeeds and is committed
  abbrev pub IsAutocommitted :
      {A : Type 0} → Txn A → Machine db.World → Result A × Machine db.World → Type 0
  IsAutocommitted {A} body m (r, m') =
      (IsErr r × (m'.world ≡ m.world))
      ⊎ ((a : A) × (l : Live db.Session) × (r ≡ ok a)
          × (body (at_once m) ≡ (ok a, l))
          × (db.finish l.session m.world ≡ (ok tt, m'.world)))

  committed :
      {A : Type 0} (body : Txn A) (m : Machine db.World) (a : A) (l : Live db.Session)
      (r : Result (Unit {0})) (w : db.World)
      → CommitsOrRollsBack db
      → body (at_once m) ≡ (ok a, l)
      → db.finish l.session m.world ≡ (r, w)
      → IsAutocommitted body m (
        elim r as (λ x. Result A) [ ok _ ↦ ok a | err e ↦ err ("" <> e) ],
        record { world = w; resource = l.resource },
      )
  committed body m a l (ok u) w rolls p q = inr (a, l, refl, p, q)
  committed body m a l (err e) w rolls p q = inl (("" <> e, refl), rolls l.session m.world w e q)

  closed :
      {A : Type 0} (body : Txn A) (m : Machine db.World) (r : Result A) (l : Live db.Session)
      → CommitsOrRollsBack db
      → body (at_once m) ≡ (r, l)
      → IsAutocommitted body m (close "" m.world (r, l))
  unfolding close
  closed body m (err e) l rolls p = inl ((e, refl), refl)
  closed body m (ok a) l rolls p = committed body m a l _ _ rolls p refl

  pub autocommit_cases :
      {A : Type 0} (body : Txn A) (m : Machine db.World)
      → CommitsOrRollsBack db
      → IsAutocommitted body m (autocommit body m)
  unfolding autocommit
  autocommit_cases body m rolls = closed body m _ _ rolls refl
