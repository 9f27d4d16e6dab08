-- ===== src/Transaction/Reading.antt =====
-- Steps of a handler that only read, and what may stand before its transaction.
use yb_terraform_provider_po.Prelude.{String, Bool, ◌≡◌, refl, inr, if◌then◌else◌, true, false}
use yb_terraform_provider_po.Prelude.Result.{Result, ok, err, lift, context, ◌>>=◌, ◌>>◌, continue}
use yb_terraform_provider_po.Postgres.{Server}
use yb_terraform_provider_po.Transaction.{
  Machine, Client, Txn, Handler, starts, handler_get_id, handler_set_id, rolled_back, transaction,
  directly,
}
use yb_terraform_provider_po.Transaction.Atomic.{
  IsReading, IsAllOrNothing, handler_set_id-IsReading, rolled_back-IsReading, directly-IsReading,
  bind-IsReading, CommitsOrRollsBack, lift-IsAllOrNothing, then-IsAllOrNothing, transaction_cases,
}

module _ ⦃db : Server⦄ where
  -- the step only reads, as a predicate that does not unfold
  pub Reads : {A : Type 0} → Handler A → Type 0
  Reads h = IsReading h

  pub Reads-IsReading : {A : Type 0} (h : Handler A) → Reads h → IsReading h
  unfolding Reads
  Reads-IsReading h k = k

  pub lift-Reads : {A : Type 0} (r : Result A) → Reads (lift r)
  unfolding Reads
  lift-Reads r m = refl

  pub context-Reads :
      {A : Type 0} (message : String) (h : Handler A) → Reads h → Reads (context message h)
  unfolding Reads
  context-Reads message h k = k

  pub starts-Reads : (client : Client) (database : String) → Reads (starts client database)
  unfolding starts Reads
  starts-Reads client database m = refl

  pub handler_get_id-Reads : Reads handler_get_id
  unfolding handler_get_id Reads
  handler_get_id-Reads m = refl

  pub handler_set_id-Reads : (i : String) → Reads (handler_set_id i)
  unfolding Reads
  handler_set_id-Reads i = handler_set_id-IsReading i

  pub rolled_back-Reads :
      {A : Type 0} (client : Client) (database : String) (body : Txn A)
      → Reads (rolled_back client database body)
  unfolding Reads
  rolled_back-Reads client database body = rolled_back-IsReading client database body

  pub directly-Reads : {A : Type 0} (body : Txn A) → Reads (directly body)
  unfolding Reads
  directly-Reads body = directly-IsReading body

  pub bind-Reads :
      {A B : Type 0} (h : Handler A) (f : A → Handler B)
      → Reads h
      → ((a : A) → Reads (f a))
      → Reads (h >>= f)
  unfolding Reads
  bind-Reads h f p q = bind-IsReading h f p q

  pub if-Reads :
      {A : Type 0} (b : Bool) (h k : Handler A) → Reads h → Reads k → Reads (if b then h else k)
  if-Reads true h k p q = p
  if-Reads false h k p q = q

  -- a step that leaves the machine as it is
  abbrev pub Leaves : {A : Type 0} → Handler A → Type 0
  Leaves h = (m : Machine db.World) → (h m).1 ≡ m

  pub starts-Leaves :
      (message : String) (client : Client) (database : String)
      → Leaves (context message (starts client database))
  unfolding starts
  starts-Leaves message client database m = refl

  -- may go before the transaction
  pub before-IsAllOrNothing :
      {A B C : Type 0} (client : Client) (database : String) (body : Txn A) (g : Handler B)
      (h : Handler C) (m : Machine db.World)
      → Leaves g
      → IsAllOrNothing client database body m (h m)
      → IsAllOrNothing client database body m ((g >> h) m)
  before-IsAllOrNothing {A} {B} {C} client database body g h m p q = go _ _ (p m)
    where
      go :
          (r : Result B) (m' : Machine db.World)
          → m' ≡ m
          → IsAllOrNothing {A = A} {B = C} client database body m (continue r (λ _. h) m')
      go (ok b) m' e = rw e q
      go (err x) m' e = rw e (inr ((x, refl), refl))

  -- and so may the computation of a text for it, where that succeeds
  pub computed-IsAllOrNothing :
      {A B C : Type 0} (client : Client) (database message : String) (body : Txn A) (r : Result B)
      (b : B) (h : B → Handler C) (m : Machine db.World)
      → r ≡ ok b
      → IsAllOrNothing client database body m (h b m)
      → IsAllOrNothing client database body m ((context message (lift r) >>= h) m)
  computed-IsAllOrNothing client database message body (ok x) b h m e p =
      let same : x ≡ b = cc in rw same p
  computed-IsAllOrNothing client database message body (err x) b h m e p = absurd (cc)

  -- A handler that runs a transaction and reads the result
  pub followed-IsAllOrNothing :
      {A C : Type 0} (client : Client) (database message : String) (body : Txn A) (end : Handler C)
      (m : Machine db.World)
      → Reads end
      → CommitsOrRollsBack db
      → IsAllOrNothing client database body m ((transaction client database message body >> end) m)
  followed-IsAllOrNothing client database message body end m reads rolls =
      then-IsAllOrNothing client database body (transaction client database message body) end m
        (Reads-IsReading end reads) (transaction_cases client database message body m rolls)

  -- A handler that checks something, runs a transaction and reads the result
  pub checked-IsAllOrNothing :
      {A B C : Type 0} (client : Client) (database message : String) (check : Result B)
      (body : Txn A) (end : Handler C) (m : Machine db.World)
      → Reads end
      → CommitsOrRollsBack db
      → IsAllOrNothing client database body m
          ((lift check >> (transaction client database message body >> end)) m)
  checked-IsAllOrNothing client database message check body end m reads rolls =
      lift-IsAllOrNothing client database body check
        (transaction client database message body >> end) m
        (followed-IsAllOrNothing client database message body end m reads rolls)
