-- ===== src/Transaction/Early.antt =====
-- A transaction whose body may return before the commit.
use yb_terraform_provider_po.Prelude.{
  String, Bool, true, false, ◌≡◌, ◌⊎◌, inl, inr, refl, ap, sym, ◌∙◌,
}
use yb_terraform_provider_po.Prelude.Result.{Result, ok, err, ◌>>◌, continue}
use yb_terraform_provider_po.Postgres.{Server}
use yb_terraform_provider_po.Transaction.{
  Live, Machine, Client, Txn, Handler, start_transaction, close, close_if, transaction_if,
}
use yb_terraform_provider_po.Transaction.Atomic.{
  CommitsOrRollsBack, IsErr, IsCommitted, IsAllOrNothing, IsReading, close_cases,
}

module _ ⦃db : Server⦄ where
  -- the body has returned before the commit
  abbrev pub IsEarly : Client → String → Txn Bool → Machine db.World → Machine db.World → Type 0
  IsEarly client database body m m' =
      (s : db.Session) × (l : Live db.Session) × (start_transaction client database m.world ≡ ok s)
      × (body (record { session = s; resource = m.resource }) ≡ (ok false, l))
      × (m'.world ≡ m.world)

  -- the body is committed, or it has returned early, or there is an error; only the first changes
  -- what is committed
  abbrev pub IsAllOrNothingIf :
      {B : Type 0}
      → Client
      → String
      → Txn Bool
      → Machine db.World
      → Result B × Machine db.World
      → Type 0
  IsAllOrNothingIf client database body m (r, m') =
      IsCommitted client database body m m'.world
      ⊎ (IsEarly client database body m m' ⊎ (IsErr r × (m'.world ≡ m.world)))

  all_or_nothing :
      {B : Type 0} (client : Client) (database : String) (body : Txn Bool) (m : Machine db.World)
      (x : Result B × Machine db.World)
      → IsAllOrNothing client database body m x
      → IsAllOrNothingIf client database body m x
  all_or_nothing client database body m x (inl c) = inl c
  all_or_nothing client database body m x (inr e) = inr (inr e)

  close_if_cases :
      (client : Client) (database message : String) (body : Txn Bool) (m : Machine db.World)
      (s : db.Session) (r : Result Bool) (l : Live db.Session)
      → CommitsOrRollsBack db
      → start_transaction client database m.world ≡ ok s
      → body (record { session = s; resource = m.resource }) ≡ (r, l)
      → IsAllOrNothingIf {B = Bool} client database body m (close_if message m.world (r, l))
  unfolding close_if
  close_if_cases client database message body m s (ok false) l rolls p q =
      inr (inl (s, l, p, q, refl))
  close_if_cases client database message body m s (ok true) l rolls p q =
      all_or_nothing client database body m (close message m.world (ok true, l))
        (close_cases client database message body m s (ok true) l rolls p q)
  close_if_cases client database message body m s (err e) l rolls p q =
      all_or_nothing client database body m (close message m.world (err e, l))
        (close_cases client database message body m s (err e) l rolls p q)

  -- what only reads may follow
  pub then-IsAllOrNothingIf :
      {B C : Type 0} (client : Client) (database : String) (body : Txn Bool) (h : Handler B)
      (k : Handler C) (m : Machine db.World)
      → IsReading k
      → IsAllOrNothingIf client database body m (h m)
      → IsAllOrNothingIf client database body m ((h >> k) m)
  then-IsAllOrNothingIf {B} {C} client database body h k m p q = go _ _ q
    where
      go :
          (r : Result B) (m' : Machine db.World)
          → IsAllOrNothingIf {B = B} client database body m (r, m')
          → IsAllOrNothingIf {B = C} client database body m (continue r (λ _. k) m')
      go (ok b) m' (inl (s, l, a, e, f, g)) =
          inl (s, l, a, e, f, g ∙ ap (λ w. (ok tt, w)) (sym (p m')))
      go (ok b) m' (inr (inl (s, l, e, f, g))) = inr (inl (s, l, e, f, p m' ∙ g))
      go (ok b) m' (inr (inr ((x, e), f))) = absurd (cc)
      go (err x) m' (inl c) = inl c
      go (err x) m' (inr (inl c)) = inr (inl c)
      go (err x) m' (inr (inr (e, f))) = inr (inr ((x, refl), f))

  pub transaction_if_cases :
      (client : Client) (database message : String) (body : Txn Bool) (m : Machine db.World)
      → CommitsOrRollsBack db
      → IsAllOrNothingIf {B = Bool} client database body m
          (transaction_if client database message body m)
  unfolding transaction_if
  transaction_if_cases client database message body m rolls = started _ refl
    where
      started :
          (r : Result db.Session)
          → start_transaction client database m.world ≡ r
          → IsAllOrNothingIf {B = Bool} client database body m
              (elim r as (λ x. Result Bool × Machine db.World) [
                | err e ↦ (err e, m)
                | ok s ↦
                    close_if message m.world (body (record { session = s; resource = m.resource }))
              ])
      started (err e) p = inr (inr ((e, refl), refl))
      started (ok s) p = close_if_cases client database message body m s _ _ rolls p refl
