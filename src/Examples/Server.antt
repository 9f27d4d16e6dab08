-- ===== src/Examples/Server.antt =====
-- A server that keeps the statements that were run, newest first, and answers the queries on
-- memberships from them. "app" is a member of "admin" at the start; nobody is a superuser.
use text.Mathlib.TextLemmas.{append-nil, append_cancel_left}
use yb_terraform_provider_po.Prelude.{
  ℕ, String, Bool, true, false, not, ◌&&◌, List, [], ◌∷◌, ◌<>◌, ◌==◌, ◌≡◌, ◌≢◌, refl, sym, ap, ◌∙◌,
  eq_iff, arith, Option, none, some, if◌then◌else◌, code, is_empty,
}
use yb_terraform_provider_po.Prelude.Result.{Result, ok}
use yb_terraform_provider_po.Postgres.{Value, Row, Pq, Server}
use yb_terraform_provider_po.Quote.Identifier.{
  plain_quote, read_identifier, read_identifier-plain_quote, Ends,
}
use yb_terraform_provider_po.Strings.{append-prepend}
use yb_terraform_provider_po.DefaultPrivileges.Read.{schema_query}
use yb_terraform_provider_po.Membership.{set_option_query, member_query, grant_sql, revoke_sql}
use yb_terraform_provider_po.Membership.Laws.{Memberships}

instance abbrev pub sample_pq : Pq
sample_pq = record { quote_identifier = plain_quote; quote_identifier_lem = λ s n. refl }

-- what the newest GRANT or REVOKE of a pair says
unfoldable pub holds : List String → String → String → Bool
holds [] role user = role == "admin" && user == "app"
holds (sql ∷ log) role user =
    let before = holds log role user in
    if sql == grant_sql role user
    then true
    else if sql == revoke_sql role user
    then false
    else before

abbrev present : Bool → List Row
present true = (Value.null ∷ []) ∷ []
present false = []

abbrev texts_of : List Value → List String
texts_of (Value.text a ∷ Value.text b ∷ []) = a ∷ b ∷ []
texts_of _ = []

abbrev member_answer : List String → List String → List Row
member_answer log (role ∷ user ∷ []) = present (holds log role user)
member_answer log _ = []

unfoldable pub answer : String → List Value → List String → List Row
unfolding holds
answer sql args log =
    if sql == "SELECT CURRENT_USER"
    then (Value.text "admin" ∷ []) ∷ []
    else if sql == "SELECT rolsuper FROM pg_roles WHERE rolname = $1"
    then (Value.bool false ∷ []) ∷ []
    else if sql == set_option_query
    then []
    else if sql == member_query false
    then member_answer log (texts_of args)
    else if sql == "SELECT 1 FROM pg_roles WHERE rolname=$1"
    then present true
    else if sql == "SELECT TRUE FROM pg_catalog.pg_roles WHERE rolname = $1"
    then (Value.bool true ∷ []) ∷ []
    else if sql == "SELECT datname FROM pg_database WHERE datname=$1"
    then present true
    else if sql == "SELECT 1 FROM pg_namespace WHERE nspname=$1"
    then present true
    else if sql == "SELECT oid FROM pg_roles WHERE rolname = $1"
    then (Value.oid 5 ∷ []) ∷ []
    else if sql == schema_query
    then (Value.texts ("SELECT" ∷ "INSERT" ∷ []) ∷ []) ∷ []
    else []

instance abbrev pub sample_db : Server
sample_db = record {
  World = List String;
  Session = List String;
  connect = λ name w. ok tt;
  begin = λ name w. ok w;
  direct = λ w. w;
  run = λ sql args log. (ok tt, sql ∷ log);
  rows = λ sql args log. ok (answer sql args log);
  finish = λ log w. (ok tt, log);
}

abbrev rest_of : Option (String × String) → String
rest_of none = ""
rest_of (some (s, rest)) = rest

abbrev name_of : Option (String × String) → String
name_of none = ""
name_of (some (s, rest)) = s

-- two quoted names with what follows them are equal only if the names are
plain_quote_inj :
    (a b x y : String)
    → Ends x
    → Ends y
    → plain_quote a <> x ≡ plain_quote b <> y
    → (a ≡ b) × (x ≡ y)
plain_quote_inj a b x y hx hy e =
    let p = read_identifier-plain_quote a x hx in
    let q = read_identifier-plain_quote b y hy in
    (ap name_of (sym p ∙ ap read_identifier e ∙ q), ap rest_of (sym p ∙ ap read_identifier e ∙ q))

last_name_inj : (a b : String) → plain_quote a ≡ plain_quote b → a ≡ b
last_name_inj a b e =
    (plain_quote_inj a b "" "" tt tt
      (append-nil (plain_quote a) ∙ e ∙ sym (append-nil (plain_quote b)))).0

to_Ends : (s : String) → Ends (" TO " <> s)
to_Ends s = rw (append-prepend " TO " s) (omega arith)

from_Ends : (s : String) → Ends (" FROM " <> s)
from_Ends s = rw (append-prepend " FROM " s) (omega arith)

grant_sql_inj : (a b x y : String) → grant_sql a b ≡ grant_sql x y → (a ≡ x) × (b ≡ y)
grant_sql_inj a b x y e =
    let inner = append_cancel_left "GRANT " _ _ e in
    let (p, q) =
      plain_quote_inj a x _ _ (to_Ends (plain_quote b)) (to_Ends (plain_quote y)) inner in
    (p, last_name_inj b y (append_cancel_left " TO " _ _ q))

revoke_sql_inj : (a b x y : String) → revoke_sql a b ≡ revoke_sql x y → (a ≡ x) × (b ≡ y)
revoke_sql_inj a b x y e =
    let inner = append_cancel_left "REVOKE " _ _ e in
    let (p, q) =
      plain_quote_inj a x _ _ (from_Ends (plain_quote b)) (from_Ends (plain_quote y)) inner in
    (p, last_name_inj b y (append_cancel_left " FROM " _ _ q))

abbrev head : String → ℕ
head String.[] = 0
head (String.◌∷◌ c s) = code c

head-grant : (a b : String) → head (grant_sql a b) ≡ b'G'
head-grant a b = ap head (append-prepend "GRANT " (plain_quote a <> " TO " <> plain_quote b))

head-revoke : (a b : String) → head (revoke_sql a b) ≡ b'R'
head-revoke a b = ap head (append-prepend "REVOKE " (plain_quote a <> " FROM " <> plain_quote b))

grant-ne-revoke : (a b x y : String) → grant_sql a b ≢ revoke_sql x y
grant-ne-revoke a b x y e =
    absurd (omega (arith, sym (head-grant a b) ∙ ap head e ∙ head-revoke x y))

pub granted_lem :
    (log : List String) (role user x y : String)
    → holds (grant_sql role user ∷ log) x y
      ≡ (if x == role && y == user then true else holds log x y)
unfolding holds
granted_lem log role user x y = ground (
  arith,
  eq_iff x role,
  eq_iff y user,
  eq_iff (grant_sql role user) (grant_sql x y),
  eq_iff (grant_sql role user) (revoke_sql x y),
  grant_sql_inj role user x y,
  grant-ne-revoke role user x y,
)

pub revoked_lem :
    (log : List String) (role user x y : String)
    → holds (revoke_sql role user ∷ log) x y
      ≡ (if x == role && y == user then false else holds log x y)
unfolding holds
revoked_lem log role user x y = ground (
  arith,
  eq_iff x role,
  eq_iff y user,
  eq_iff (revoke_sql role user) (grant_sql x y),
  eq_iff (revoke_sql role user) (revoke_sql x y),
  revoke_sql_inj role user x y,
  grant-ne-revoke x y role user,
)

pub after :
    (s t : List String) {sql : String} (x y : String)
    → sample_db.run sql [] s ≡ (ok tt, t)
    → holds t x y ≡ holds (sql ∷ s) x y
after s t x y e = ap (λ (r : Result (Unit {0}) × List String). holds r.1 x y) (sym e)

-- a statement that begins otherwise changes no membership
pub other_statement :
    (log : List String) (sql x y : String) → head sql ≡ b'C' → holds (sql ∷ log) x y ≡ holds log x y
unfolding holds
other_statement log sql x y h = ground (
  arith,
  eq_iff sql (grant_sql x y),
  eq_iff sql (revoke_sql x y),
  λ (e : sql ≡ grant_sql x y). ap head e ∙ head-grant x y,
  λ (e : sql ≡ revoke_sql x y). ap head e ∙ head-revoke x y,
)

pub present_lem : (b : Bool) → is_empty (present b) ≡ not b
present_lem true = refl
present_lem false = refl

-- the sample server meets what is assumed of a server
unfoldable pub sample_memberships : Memberships
unfolding answer
sample_memberships = record {
  set_option = false;
  member = holds;
  exists = λ log role. true;
  column_rows = λ s. refl;
  member_rows = λ s role user. present_lem (holds s role user);
  role_rows = λ s role. refl;
  granted = λ s t role user x y e. after s t x y e ∙ granted_lem s role user x y;
  revoked = λ s t role user x y e. after s t x y e ∙ revoked_lem s role user x y;
  granted_exists = λ s t role user x e. refl;
  revoked_exists = λ s t role user x e. refl;
}
