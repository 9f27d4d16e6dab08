-- ===== src/Transaction/Atomic.antt =====
-- What a handler leaves on the server: the whole of its transaction, or nothing and an error.
use yb_terraform_provider_po.Prelude.{arith, String, ◌≡◌, ◌⊎◌, inl, inr, refl, sym, ◌∙◌, ap, ◌<>◌}
use yb_terraform_provider_po.Prelude.Result.{Result, ok, err, lift, ◌>>=◌, ◌>>◌, continue}
use yb_terraform_provider_po.Postgres.{Server}
use yb_terraform_provider_po.Transaction.{
  Live, Machine, Client, Txn, Handler, start_transaction, transaction, rolled_back, directly,
  handler_set_id, close,
}

abbrev pub IsErr : {A : Type 0} → Result A → Type 0
IsErr r = (e : String) × (r ≡ err e)

-- PostgreSQL's documentation of COMMIT: where it fails, the transaction is rolled back.
abbrev pub CommitsOrRollsBack : Server → Type 0
CommitsOrRollsBack db =
    (s : db.Session) (w w' : db.World) (e : String) → db.finish s w ≡ (err e, w') → w' ≡ w

module _ ⦃db : Server⦄ where
  -- `w` is what a commit of the whole body leaves, started on `m`
  abbrev pub IsCommitted :
      {A : Type 0} → Client → String → Txn A → Machine db.World → db.World → Type 0
  IsCommitted {A} client database body m w =
      (s : db.Session) × (l : Live db.Session) × (a : A) × (start_transaction client database
          m.world
        ≡ ok s)
      × (body (record { session = s; resource = m.resource }) ≡ (ok a, l))
      × (db.finish l.session m.world ≡ (ok tt, w))

  -- a handler's result and machine: the body is committed, or there is an error and nothing changes
  abbrev pub IsAllOrNothing :
      {A B : Type 0}
      → Client
      → String
      → Txn A
      → Machine db.World
      → Result B × Machine db.World
      → Type 0
  IsAllOrNothing client database body m (r, m') =
      IsCommitted client database body m m'.world ⊎ (IsErr r × (m'.world ≡ m.world))

  -- the commit of a body that has succeeded with `a`, on `l`
  commit_cases :
      {A : Type 0} (client : Client) (database message : String) (body : Txn A)
      (m : Machine db.World) (s : db.Session) (a : A) (l : Live db.Session) (r : Result (Unit {0}))
      (w : db.World)
      → CommitsOrRollsBack db
      → start_transaction client database m.world ≡ ok s
      → body (record { session = s; resource = m.resource }) ≡ (ok a, l)
      → db.finish l.session m.world ≡ (r, w)
      → IsAllOrNothing {A = A} {B = A} client database body m (
        elim r as (λ x. Result A) [ ok _ ↦ ok a | err e ↦ err (message <> e) ],
        record { world = w; resource = l.resource },
      )
  commit_cases client database message body m s a l (ok u) w rolls p q h = inl (s, l, a, p, q, h)
  commit_cases client database message body m s a l (err e) w rolls p q h =
      inr ((message <> e, refl), rolls l.session m.world w e h)

  pub close_cases :
      {A : Type 0} (client : Client) (database message : String) (body : Txn A)
      (m : Machine db.World) (s : db.Session) (r : Result A) (l : Live db.Session)
      → CommitsOrRollsBack db
      → start_transaction client database m.world ≡ ok s
      → body (record { session = s; resource = m.resource }) ≡ (r, l)
      → IsAllOrNothing {A = A} {B = A} client database body m (close message m.world (r, l))
  unfolding close
  close_cases client database message body m s (err e) l rolls p q = inr ((e, refl), refl)
  close_cases client database message body m s (ok a) l rolls p q =
      commit_cases client database message body m s a l _ _ rolls p q refl

  pub transaction_cases :
      {A : Type 0} (client : Client) (database message : String) (body : Txn A)
      (m : Machine db.World)
      → CommitsOrRollsBack db
      → IsAllOrNothing {A = A} {B = A} client database body m
          (transaction client database message body m)
  unfolding transaction
  transaction_cases {A} client database message body m rolls = started _ refl
    where
      started :
          (r : Result db.Session)
          → start_transaction client database m.world ≡ r
          → IsAllOrNothing {A = A} {B = A} client database body m
              (elim r as (λ x. Result A × Machine db.World) [
                | err e ↦ (err e, m)
                | ok s ↦
                    close message m.world (body (record { session = s; resource = m.resource }))
              ])
      started (err e) p = inr ((e, refl), refl)
      started (ok s) p = close_cases client database message body m s _ _ rolls p refl

  close-eq-ok :
      {A : Type 0} (message : String) (w : db.World) (r : Result A) (l : Live db.Session)
      (m : Machine db.World) (a : A)
      → close message w (r, l) ≡ (ok a, m)
      → (r ≡ ok a) × (db.finish l.session w ≡ (ok tt, m.world))
  unfolding close
  close-eq-ok message w (err e) l m a h = absurd (cc)
  close-eq-ok message w (ok b) l m a h = ground arith

  -- a transaction that succeeds is its body, committed
  pub transaction-eq-ok :
      {A : Type 0} (client : Client) (database message : String) (body : Txn A)
      (m m' : Machine db.World) (a : A)
      → transaction client database message body m ≡ (ok a, m')
      → (s : db.Session) × (l : Live db.Session) × (start_transaction client database m.world
          ≡ ok s)
        × (body (record { session = s; resource = m.resource }) ≡ (ok a, l))
        × (db.finish l.session m.world ≡ (ok tt, m'.world))
  unfolding transaction
  transaction-eq-ok {A} client database message body m m' a = started _ refl
    where
      started :
          (r : Result db.Session)
          → start_transaction client database m.world ≡ r
          → elim r as (λ x. Result A × Machine db.World) [
            | err e ↦ (err e, m)
            | ok s ↦ close message m.world (body (record { session = s; resource = m.resource }))
          ]
            ≡ (ok a, m')
          → (s : db.Session) × (l : Live db.Session) × (start_transaction client database m.world
              ≡ ok s)
            × (body (record { session = s; resource = m.resource }) ≡ (ok a, l))
            × (db.finish l.session m.world ≡ (ok tt, m'.world))
      started (err e) p h = absurd (cc)
      started (ok s) p h =
          let (e, f) = close-eq-ok message m.world _ _ m' a h in
          (
            s,
            (body (record { session = s; resource = m.resource })).1,
            p,
            ap (λ r. (r, (body (record { session = s; resource = m.resource })).1)) e,
            f,
          )

  -- a body that fails leaves its error and what it has done to the resource data
  pub transaction-err :
      {A : Type 0} (client : Client) (database message e : String) (body : Txn A)
      (m : Machine db.World) (s : db.Session) (l : Live db.Session)
      → start_transaction client database m.world ≡ ok s
      → body (record { session = s; resource = m.resource }) ≡ (err e, l)
      → transaction client database message body m
        ≡ (err e, record { world = m.world; resource = l.resource })
  unfolding transaction close
  transaction-err client database message e body m s l p q = ground arith

  -- a step that leaves the committed state alone
  abbrev pub IsReading : {A : Type 0} → Handler A → Type 0
  IsReading h = (m : Machine db.World) → (h m).1.world ≡ m.world

  pub rolled_back-IsReading :
      {A : Type 0} (client : Client) (database : String) (body : Txn A)
      → IsReading (rolled_back client database body)
  unfolding rolled_back
  rolled_back-IsReading {A} client database body m = go (start_transaction client database m.world)
    where
      go :
          (r : Result db.Session)
          → (elim r as (λ x. Result A × Machine db.World) [
            | err e ↦ (err e, m)
            | ok s ↦
                let (r, l) = body (record { session = s; resource = m.resource }) in
                (r, record { world = m.world; resource = l.resource })
          ]).1.world
            ≡ m.world
      go (err e) = refl
      go (ok s) = refl

  pub directly-IsReading : {A : Type 0} (body : Txn A) → IsReading (directly body)
  unfolding directly
  directly-IsReading body m = refl

  pub handler_set_id-IsReading : (i : String) → IsReading (handler_set_id i)
  unfolding handler_set_id
  handler_set_id-IsReading i m = refl

  pub bind-IsReading :
      {A B : Type 0} (h : Handler A) (f : A → Handler B)
      → IsReading h
      → ((a : A) → IsReading (f a))
      → IsReading (h >>= f)
  bind-IsReading {A} {B} h f p q m = go _ _ (p m)
    where
      go :
          (r : Result A) (m' : Machine db.World)
          → m'.world ≡ m.world
          → (continue r f m').1.world ≡ m.world
      go (ok a) m' e = q a m' ∙ e
      go (err x) m' e = e

  -- what only reads may follow the transaction
  pub then-IsAllOrNothing :
      {A B C : Type 0} (client : Client) (database : String) (body : Txn A) (h : Handler B)
      (k : Handler C) (m : Machine db.World)
      → IsReading k
      → IsAllOrNothing client database body m (h m)
      → IsAllOrNothing client database body m ((h >> k) m)
  then-IsAllOrNothing {A} {B} {C} client database body h k m p q = go _ _ q
    where
      go :
          (r : Result B) (m' : Machine db.World)
          → IsAllOrNothing {A = A} {B = B} client database body m (r, m')
          → IsAllOrNothing {A = A} {B = C} client database body m (continue r (λ _. k) m')
      go (ok b) m' (inl (s, l, a, e, f, g)) =
          inl (s, l, a, e, f, g ∙ ap (λ w. (ok tt, w)) (sym (p m')))
      go (ok b) m' (inr ((x, e), f)) = absurd (cc)
      go (err x) m' (inl c) = inl c
      go (err x) m' (inr (e, f)) = inr ((x, refl), f)

  -- and a check of the parameters may go before it
  pub lift-IsAllOrNothing :
      {A B C : Type 0} (client : Client) (database : String) (body : Txn A) (r : Result B)
      (h : Handler C) (m : Machine db.World)
      → IsAllOrNothing client database body m (h m)
      → IsAllOrNothing client database body m ((lift r >> h) m)
  lift-IsAllOrNothing client database body (ok b) h m p = p
  lift-IsAllOrNothing client database body (err e) h m p = inr ((e, refl), refl)
