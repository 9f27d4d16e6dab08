-- ===== src/Transaction/Keeps.antt =====
-- Parts of a transaction that leave the resource data alone.
use yb_terraform_provider_po.Prelude.{
  String, Bool, true, false, List, [], ◌∷◌, ◌≡◌, refl, ◌∙◌, if◌then◌else◌,
}
use yb_terraform_provider_po.Prelude.Result.{
  Result, ok, err, pure, fail, lift, context, when, for_each, ◌>>=◌, continue,
}
use yb_terraform_provider_po.Postgres.{Value, Row, Server}
use yb_terraform_provider_po.Transaction.{Live, Txn, exec, query, query_row}

module _ ⦃db : Server⦄ where
  pub Keeps : {A : Type 0} → Txn A → Type 0
  Keeps m = (l : Live db.Session) → (m l).1.resource ≡ l.resource

  pub pure-Keeps : {A : Type 0} (a : A) → Keeps (pure a)
  unfolding Keeps
  pure-Keeps a l = refl

  pub fail-Keeps : (A : Type 0) (message : String) → Keeps (fail {A = A} message)
  unfolding Keeps
  fail-Keeps A message l = refl

  pub lift-Keeps : {A : Type 0} (r : Result A) → Keeps (lift r)
  unfolding Keeps
  lift-Keeps r l = refl

  pub Keeps-eq :
      {A : Type 0} (m : Txn A) (l : Live db.Session) → Keeps m → (m l).1.resource ≡ l.resource
  unfolding Keeps
  Keeps-eq m l k = k l

  pub Keeps-settled :
      {A : Type 0} {r : Result A} (m : Txn A) (l l' : Live db.Session)
      → Keeps m
      → m l ≡ (r, l')
      → l'.resource.settings ≡ l.resource.settings
  unfolding Keeps
  Keeps-settled m l l' k h = let e = k l in cc

  pub exec-Keeps : (sql : String) (args : List Value) → Keeps (exec sql args)
  unfolding exec Keeps
  exec-Keeps sql args l = refl

  pub query-Keeps : (sql : String) (args : List Value) → Keeps (query sql args)
  unfolding query Keeps
  query-Keeps sql args l = refl

  pub query_row-Keeps :
      {A : Type 0} (f : Row → Result A) (sql : String) (args : List Value)
      → Keeps (query_row f sql args)
  unfolding query_row Keeps
  query_row-Keeps f sql args l = refl

  pub context-Keeps :
      {A : Type 0} (message : String) (m : Txn A) → Keeps m → Keeps (context message m)
  unfolding Keeps
  context-Keeps message m k = k

  pub bind-Keeps :
      {A B : Type 0} (m : Txn A) (f : A → Txn B)
      → Keeps m
      → ((a : A) → Keeps (f a))
      → Keeps (m >>= f)
  unfolding Keeps
  bind-Keeps {A} {B} m f p q l = go _ _ (p l)
    where
      go :
          (r : Result A) (k : Live db.Session)
          → k.resource ≡ l.resource
          → (continue r f k).1.resource ≡ l.resource
      go (ok a) k e = q a k ∙ e
      go (err x) k e = e

  pub when-Keeps : (b : Bool) (m : Txn (Unit {0})) → Keeps m → Keeps (when b m)
  unfolding Keeps
  when-Keeps true m k = k
  when-Keeps false m k = λ l. refl

  pub if-Keeps :
      {A : Type 0} (b : Bool) (m n : Txn A) → Keeps m → Keeps n → Keeps (if b then m else n)
  if-Keeps true m n p q = p
  if-Keeps false m n p q = q

  pub for_each-Keeps :
      {A : Type 0} (xs : List A) (f : A → Txn (Unit {0}))
      → ((x : A) → Keeps (f x))
      → Keeps (for_each xs f)
  unfolding Keeps
  for_each-Keeps [] f k = λ l. refl
  for_each-Keeps (x ∷ xs) f k = bind-Keeps (f x) _ (k x) (λ _. for_each-Keeps xs f k)
