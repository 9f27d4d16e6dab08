-- ===== src/SecurityLabel/Atomic.antt =====
-- The handlers of postgresql_security_label run one statement outside a transaction.
use yb_terraform_provider_po.Prelude.{
  String, [], Bool, true, false, ◌≡◌, ◌⊎◌, inl, inr, refl, sym, ap, ◌∙◌, ◌<>◌,
}
use yb_terraform_provider_po.Prelude.Result.{Result, ok, err, lift, context, wrap, continue, ◌>>◌}
use yb_terraform_provider_po.Postgres.{Pq, Server}
use yb_terraform_provider_po.Features.{feature_supported}
use yb_terraform_provider_po.Features
use yb_terraform_provider_po.Terraform.{ResourceData}
use yb_terraform_provider_po.Transaction.{Live, Machine, Connection, Txn, Handler, exec, autocommit}
use yb_terraform_provider_po.Transaction.Atomic.{CommitsOrRollsBack, IsErr}
use yb_terraform_provider_po.Transaction.Autocommit.{IsAutocommitted, at_once, autocommit_cases}
use yb_terraform_provider_po.Transaction.Reading.{
  Reads, starts-Reads, directly-Reads, handler_set_id-Reads, bind-Reads, Reads-IsReading,
}
use yb_terraform_provider_po.SecurityLabel.{
  security_label_sql, security_label_read_impl, security_label_create, security_label_update,
  security_label_delete, security_label_update_impl, check_security_label_feature,
}

module _ ⦃db : Server⦄ where
  -- the statement is committed by itself, or there is an error and the committed state is the old one
  abbrev pub IsOneStatement :
      Txn (Unit {0}) → Machine db.World → Result (Unit {0}) × Machine db.World → Type 0
  IsOneStatement body m (r, m') =
      (IsErr r × (m'.world ≡ m.world))
      ⊎ ((l : Live db.Session) × (body (at_once m) ≡ (ok tt, l))
          × (db.finish l.session m.world ≡ (ok tt, m'.world)))

  stated :
      (title : String) (supported : Bool) (message : String) (body : Txn (Unit {0}))
      (end : Handler (Unit {0})) (m : Machine db.World)
      → Reads end
      → CommitsOrRollsBack db
      → IsOneStatement body m (
          (lift (check_security_label_feature title supported)
              >> (context message (autocommit body) >> end))
            m)
  stated title false message body end m reads rolls = inl ((_, refl), refl)
  stated title true message body end m reads rolls = go _ _ (autocommit_cases body m rolls)
    where
      go :
          (r : Result (Unit {0})) (m' : Machine db.World)
          → IsAutocommitted body m (r, m')
          → IsOneStatement body m (continue (wrap message r) (λ _. end) m')
      go (ok u) m' (inl (e, p)) = absurd (cc)
      go (ok u) m' (inr (a, l, e, p, q)) =
          inr (l, p, q ∙ ap (λ w. (ok tt, w)) (sym (Reads-IsReading end reads m')))
      go (err x) m' (inl (e, p)) = inl ((message <> x, refl), p)
      go (err x) m' (inr (a, l, e, p, q)) = absurd (cc)

  module _ ⦃pq : Pq⦄ where
    security_label_read_impl-Reads :
        (c : Connection) (d : ResourceData) → Reads (security_label_read_impl c d)
    unfolding security_label_read_impl
    security_label_read_impl-Reads c d =
        bind-Reads _ _ (starts-Reads c.client "") λ _. directly-Reads _

    -- Creating, updating or deleting a security label: the one statement is committed, whatever
    -- reading back returns behind it; or the handler returns an error and the committed state is the
    -- old one; where a failed COMMIT rolls back.
    pub security_label-IsOneStatement :
        (quote_literal : String → String) (c : Connection) (d : ResourceData) (m : Machine db.World)
        → CommitsOrRollsBack db
        → IsOneStatement
            (exec (security_label_sql d (quote_literal (d.get_string "label"))) [])
            m
            (security_label_create quote_literal c d m)
          × IsOneStatement
              (exec (security_label_sql d (quote_literal (d.get_string "label"))) [])
              m
              (security_label_update quote_literal c d m)
          × IsOneStatement (exec (security_label_sql d "NULL") []) m (security_label_delete c d m)
    unfolding security_label_create security_label_update security_label_delete
        security_label_update_impl
    security_label-IsOneStatement quote_literal c d m rolls =
        let reading = security_label_read_impl-Reads c d in
        let message : String = "could not create security label: " in
        (
          stated "security Label" (feature_supported Features.security_label c.version) message _ _
              m (bind-Reads _ _ (handler_set_id-Reads _) λ _. reading) rolls,
          stated "Security Label" (feature_supported Features.server c.version) message _ _ m
              reading rolls,
          stated "Security Label" (feature_supported Features.security_label c.version) message _ _
              m (handler_set_id-Reads "") rolls,
        )
