-- ===== src/Transaction.antt =====
-- Statements, queries and transactions as the handlers use them (postgresql/helpers.go), over the
-- server of Postgres.antt. A handler works on a `Machine`, the part of it in a transaction on a `Live`
-- session; both carry the resource data, which an error does not roll back.
pub mod Atomic
pub mod Keeps
pub mod Reading
pub mod Early
pub mod Autocommit
use yb_terraform_provider_po.Prelude.{
  String, Bool, false, ◌&&◌, not, List, ◌<>◌, ◌==◌, if◌then◌else◌,
}
use yb_terraform_provider_po.Prelude.Result.{Result, ok, err, Act, wrap}
use yb_terraform_provider_po.Postgres.{Value, Row, Server, Scan, first_row, scan_with}
use yb_terraform_provider_po.Features.{Version}
use yb_terraform_provider_po.Terraform.{ResourceData}
use yb_terraform_provider_po.Terraform

pub record Live (S : Type 0) : Type 0 where
  pub session : S
  pub resource : ResourceData

pub record Machine (W : Type 0) : Type 0 where
  pub world : W
  pub resource : ResourceData

-- Client, without the connection settings, which only the driver reads
pub record Client : Type 0 where
  pub database_name : String
  pub username : String
  pub database_username : String
  pub superuser : Bool

-- DBConnection: its client and the version of its server
pub record Connection : Type 0 where
  pub client : Client
  pub version : Version

-- getDatabaseUsername
unfoldable pub get_database_username : Client → String
get_database_username c = if c.database_username == "" then c.username else c.database_username

module _ ⦃db : Server⦄ where
  abbrev pub Txn : Type 0 → Type 0
  Txn A = Act (Live db.Session) A

  abbrev pub Handler : Type 0 → Type 0
  Handler A = Act (Machine db.World) A

  -- txn.Exec
  unfoldable pub exec : String → List Value → Txn (Unit {0})
  exec sql args l = let (r, s) = db.run sql args l.session in (r, record l { session = s })

  -- txn.Query, read to its end
  unfoldable pub query : String → List Value → Txn (List Row)
  query sql args l = (db.rows sql args l.session, l)

  -- txn.QueryRow(…).Scan(…)
  unfoldable pub query_row : {A : Type 0} → (Row → Result A) → String → List Value → Txn (Scan A)
  query_row f sql args l = (ok (scan_with f (first_row (db.rows sql args l.session))), l)

  -- d.SetId and d.Set in a transaction
  unfoldable pub set_id : String → Txn (Unit {0})
  set_id i l = (ok tt, record l { resource = Terraform.set_id i l.resource })

  unfoldable pub set : String → Terraform.Setting → Txn (Unit {0})
  set name v l = (ok tt, record l { resource = Terraform.set name v l.resource })

  -- d.Id()
  unfoldable pub get_id : Txn String
  get_id l = (ok l.resource.id, l)

  unfoldable pub handler_set_id : String → Handler (Unit {0})
  handler_set_id i m = (ok tt, record m { resource = Terraform.set_id i m.resource })

  unfoldable pub handler_get_id : Handler String
  handler_get_id m = (ok m.resource.id, m)

  -- the database that startTransaction connects to
  unfoldable pub target_database : Client → String → String
  target_database client database =
      if not (database == "") && not (database == client.database_name)
      then database
      else client.database_name

  -- startTransaction
  unfoldable pub start_transaction : Client → String → db.World → Result db.Session
  unfolding target_database
  start_transaction client database w =
      let name = target_database client database in
      elim (db.connect name w) [
        | err e ↦ err e
        | ok _ ↦ wrap "could not start transaction: " (db.begin name w)
      ]

  -- whether startTransaction succeeds, for a caller that adds a context to its error; the transaction
  -- itself is the part that follows
  unfoldable pub starts : Client → String → Handler (Unit {0})
  starts client database m =
      (elim (start_transaction client database m.world) [ ok _ ↦ ok tt | err e ↦ err e ], m)

  unfoldable pub close :
      {A : Type 0} → String → db.World → Result A × Live db.Session → Result A × Machine db.World
  close message w (err e, l) = (err e, record { world = w; resource = l.resource })
  close message w (ok a, l) =
      let (r, w') = db.finish l.session w in
      (
        elim r [ ok _ ↦ ok a | err e ↦ err (message <> e) ],
        record { world = w'; resource = l.resource },
      )

  -- `txn, err := startTransaction(…)`, `defer deferredRollback(txn)`, a body, `txn.Commit()`: an
  -- error of the body returns with the rollback only; the message is that of a failed commit.
  unfoldable pub transaction : {A : Type 0} → Client → String → String → Txn A → Handler A
  unfolding close
  transaction client database message body m = elim (start_transaction client database m.world) [
    | err e ↦ (err e, m)
    | ok s ↦ close message m.world (body (record { session = s; resource = m.resource }))
  ]

  unfoldable pub close_if :
      String → db.World → Result Bool × Live db.Session → Result Bool × Machine db.World
  unfolding close
  close_if message w (ok false, l) = (ok false, record { world = w; resource = l.resource })
  close_if message w r = close message w r

  -- the same for a body that may return before the commit, which `false` says
  unfoldable pub transaction_if : Client → String → String → Txn Bool → Handler Bool
  unfolding close_if
  transaction_if client database message body m = elim (start_transaction client database m.world) [
    | err e ↦ (err e, m)
    | ok s ↦ close_if message m.world (body (record { session = s; resource = m.resource }))
  ]

  -- the same without a commit, as the reading handlers do
  unfoldable pub rolled_back : {A : Type 0} → Client → String → Txn A → Handler A
  rolled_back client database body m = elim (start_transaction client database m.world) [
    | err e ↦ (err e, m)
    | ok s ↦
        let (r, l) = body (record { session = s; resource = m.resource }) in
        (r, record { world = m.world; resource = l.resource })
  ]

  -- a statement on the connection itself (`db.Exec`) with the reading before it: PostgreSQL commits it
  -- by itself
  unfoldable pub autocommit : {A : Type 0} → Txn A → Handler A
  unfolding close
  autocommit body m =
      close "" m.world (body (record { session = db.direct m.world; resource = m.resource }))

  -- a deferred call that does not change the result
  unfoldable pub deferring : {A B : Type 0} → Handler A → Handler B → Handler A
  deferring h k m = let (r, m') = h m in (r, (k m').1)

  -- reading through the connection itself (`db.QueryRow`)
  unfoldable pub directly : {A : Type 0} → Txn A → Handler A
  directly body m =
      let (r, l) = body (record { session = db.direct m.world; resource = m.resource }) in
      (r, record { world = m.world; resource = l.resource })
