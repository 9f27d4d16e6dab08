-- ===== src/Postgres.antt =====
-- What the provider reaches through github.com/lib/pq and database/sql, which are not part of the
-- repository: the quoting of identifiers, connections, transactions, statements and queries. They
-- are parameters, passed to every definition that uses them as instances.
use yb_terraform_provider_po.Prelude.{ℕ, String, code, ◌≡◌, ◌≢◌, Bool, List, [], ◌∷◌, ◌<>◌}
use yb_terraform_provider_po.Prelude.Int.{ℤ}
use yb_terraform_provider_po.Prelude.Result.{Result, ok, err}
use yb_terraform_provider_po.Strings.{replace}

-- an argument of a statement, or a cell of a row
pub data Value : Type 0 where
  text : String → Value
  bool : Bool → Value
  int : ℤ → Value
  oid : ℕ → Value
  texts : List String → Value
  null : Value

abbrev pub Row : Type 0
Row = List Value

abbrev pub NoNul : String → Type 0
NoNul String.[] = Unit
NoNul (String.◌∷◌ c s) = (code c ≢ 0) × NoNul s

-- lib/pq. The law is what its documentation says of a name without a zero byte: the name stands
-- between double quotes, and a double quote in it is doubled.
pub record Pq : Type 0 where
  pub quote_identifier : String → String
  pub quote_identifier_lem :
      (s : String) → NoNul s → quote_identifier s ≡ "\"" <> replace b'"' "\"\"" s <> "\""

-- A server as database/sql shows it. `World` is what is committed, `Session` an open transaction
-- with what it has done so far; `direct` is a connection outside a transaction, which the modelled
-- code only reads through. A query is a SELECT on the catalogs and changes nothing.
pub record Server : Type 1 where
  pub World : Type 0
  pub Session : Type 0
  pub connect : String → World → Result (Unit {0})
  pub begin : String → World → Result Session
  pub direct : World → Session
  pub run : String → List Value → Session → Result (Unit {0}) × Session
  pub rows : String → List Value → Session → Result (List Row)
  pub finish : Session → World → Result (Unit {0}) × World

-- `db.QueryRow(…).Scan(…)`: a row, the sentinel sql.ErrNoRows, or another error
pub data Scan (A : Type 0) : Type 0 where
  row : A → Scan A
  no_rows : Scan A
  failed : String → Scan A

abbrev pub first_row : Result (List Row) → Scan Row
first_row (ok []) = no_rows
first_row (ok (r ∷ rs)) = row r
first_row (err e) = failed e

-- the error of a Scan into a variable of another type
abbrev pub scan_error : String
scan_error = "sql: Scan error"

abbrev pub scan_with : {A : Type 0} → (Row → Result A) → Scan Row → Scan A
scan_with f (row r) = elim (f r) [ ok a ↦ row a | err e ↦ failed e ]
scan_with f no_rows = no_rows
scan_with f (failed e) = failed e

abbrev pub as_text : Row → Result String
as_text (text s ∷ []) = ok s
as_text _ = err scan_error

abbrev pub as_bool : Row → Result Bool
as_bool (bool b ∷ []) = ok b
as_bool _ = err scan_error

abbrev pub as_oid : Row → Result ℕ
as_oid (oid n ∷ []) = ok n
as_oid _ = err scan_error

-- into a pq.ByteaArray, to which NULL is the empty array
abbrev pub as_texts : Row → Result (List String)
as_texts (texts l ∷ []) = ok l
as_texts (null ∷ []) = ok []
as_texts _ = err scan_error

-- where only the presence of a row matters
abbrev pub as_any : Row → Result (Unit {0})
as_any _ = ok tt
