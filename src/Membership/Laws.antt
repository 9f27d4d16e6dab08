-- ===== src/Membership/Laws.antt =====
-- What the memberships of a server are, as the queries and statements of Membership.antt show them,
-- and what granting and revoking one does.
use yb_terraform_provider_po.Prelude.{
  String, Bool, true, false, not, ◌&&◌, List, [], ◌∷◌, is_empty, ◌==◌, ◌≡◌, arith, if◌then◌else◌,
  Bool-cases, inl, inr, ap, ◌∙◌,
}
use yb_terraform_provider_po.Prelude.Result.{Result, ok, err, pure, context, ◌>>◌, bind-elim}
use yb_terraform_provider_po.Postgres.{Value, Row, Pq, Server}
use yb_terraform_provider_po.Transaction.{Live, exec}
use yb_terraform_provider_po.Catalog.{row_exists}
use yb_terraform_provider_po.Membership.{
  set_option_query, member_query, grant_sql, revoke_sql, is_member_of_role, grant_role_membership,
  revoke_role_membership,
}

-- the answer of a query that is read for the presence of a row, where the query does not fail
abbrev pub Answers : Result (List Row) → Bool → Type 0
Answers (ok rows) b = is_empty rows ≡ not b
Answers (err e) b = Unit

-- What PostgreSQL documents of GRANT, REVOKE and its catalogs: the two queries report the relation
-- `member role user`, a successful GRANT adds one pair to it, a successful REVOKE removes one, and
-- neither creates or drops a role.
pub record Memberships ⦃db : Server⦄ ⦃pq : Pq⦄ : Type 0 where
  pub set_option : Bool
  pub member : db.Session → String → String → Bool
  pub exists : db.Session → String → Bool
  pub column_rows : (s : db.Session) → Answers (db.rows set_option_query [] s) set_option
  pub member_rows :
      (s : db.Session) (role user : String)
      → Answers
          (db.rows (member_query set_option) (Value.text role ∷ Value.text user ∷ []) s)
          (member s role user)
  pub role_rows :
      (s : db.Session) (role : String)
      → Answers
          (db.rows "SELECT 1 FROM pg_roles WHERE rolname=$1" (Value.text role ∷ []) s)
          (exists s role)
  pub granted :
      (s t : db.Session) (role user x y : String)
      → db.run (grant_sql role user) [] s ≡ (ok tt, t)
      → member t x y ≡ (if x == role && y == user then true else member s x y)
  pub revoked :
      (s t : db.Session) (role user x y : String)
      → db.run (revoke_sql role user) [] s ≡ (ok tt, t)
      → member t x y ≡ (if x == role && y == user then false else member s x y)
  pub granted_exists :
      (s t : db.Session) (role user x : String)
      → db.run (grant_sql role user) [] s ≡ (ok tt, t)
      → exists t x ≡ exists s x
  pub revoked_exists :
      (s t : db.Session) (role user x : String)
      → db.run (revoke_sql role user) [] s ≡ (ok tt, t)
      → exists t x ≡ exists s x

module _ ⦃db : Server⦄ where
  -- asking for a row changes nothing, and tells whether there is one
  pub row_exists-eq-ok :
      (message sql : String) (args : List Value) (l l' : Live db.Session) (a b : Bool)
      → Answers (db.rows sql args l.session) a
      → row_exists message sql args l ≡ (ok b, l')
      → (b ≡ a) × (l' ≡ l)
  unfolding row_exists
  row_exists-eq-ok message sql args l l' a b w h = ground arith

  -- a statement with the value that follows it
  pub exec-eq-ok :
      {A : Type 0} (message sql : String) (args : List Value) (v a : A) (l l' : Live db.Session)
      → (context message (exec sql args) >> pure v) l ≡ (ok a, l')
      → (a ≡ v) × (db.run sql args l.session ≡ (ok tt, l'.session))
  unfolding exec
  exec-eq-ok message sql args v a l l' h = ground arith

  module _ ⦃pq : Pq⦄ (law : Memberships) where
    abbrev pub members : Live db.Session → String → String → Bool
    members l = law.member l.session

    pub is_member_of_role-eq-ok :
        (role user : String) (l l' : Live db.Session) (b : Bool)
        → is_member_of_role role user l ≡ (ok b, l')
        → (b ≡ members l role user) × (l' ≡ l)
    unfolding is_member_of_role
    is_member_of_role-eq-ok role user l l' b h =
        bind-elim (row_exists "could not read setOption column: " set_option_query []) _ l l' b h
          λ so u p q.
            let (so-eq, same) =
              row_exists-eq-ok "could not read setOption column: " set_option_query [] l u
                law.set_option so (law.column_rows l.session) p in
            row_exists-eq-ok "could not read role membership: " (member_query law.set_option)
              (Value.text role ∷ Value.text user ∷ []) l l' _ b
              (law.member_rows l.session role user) (cc (so-eq, same, q))

    pub grant_role_membership-eq-ok :
        (role user : String) (l l' : Live db.Session) (b : Bool)
        → grant_role_membership role user l ≡ (ok b, l')
        → (b ≡ (not (user == role) && not (members l role user)))
          × ((x y : String)
              → members l' x y ≡ (if b && (x == role && y == user) then true else members l x y))
    unfolding grant_role_membership
    grant_role_membership-eq-ok role user l l' b h = elim (Bool-cases (user == role)) [
      | inl self ↦ ground arith
      | inr other ↦ bind-elim (is_member_of_role role user) _ l l' b (rw other at h) λ im u p q.
          let (e, same) = is_member_of_role-eq-ok role user l u im p in
          elim (Bool-cases im) [
            | inl already ↦ ground arith
            | inr missing ↦
                let (e', run) = exec-eq-ok _ _ [] true b u l' (rw missing at q) in
                (
                  ground arith,
                  λ x y. ground (arith, law.granted u.session l'.session role user x y run),
                )
          ]
    ]

    pub revoke_role_membership-eq-ok :
        (role user : String) (l l' : Live db.Session) (b : Bool)
        → revoke_role_membership role user l ≡ (ok b, l')
        → (b ≡ (not (user == role) && members l role user))
          × ((x y : String)
              → members l' x y ≡ (if b && (x == role && y == user) then false else members l x y))
    unfolding revoke_role_membership
    revoke_role_membership-eq-ok role user l l' b h = elim (Bool-cases (user == role)) [
      | inl self ↦ ground arith
      | inr other ↦ bind-elim (is_member_of_role role user) _ l l' b (rw other at h) λ im u p q.
          let (e, same) = is_member_of_role-eq-ok role user l u im p in
          elim (Bool-cases im) [
            | inr missing ↦ ground arith
            | inl present ↦
                let (e', run) = exec-eq-ok _ _ [] true b u l' (rw present at q) in
                (
                  ground arith,
                  λ x y. ground (arith, law.revoked u.session l'.session role user x y run),
                )
          ]
    ]

    -- what no GRANT of a membership changes, grantRoleMembership keeps
    pub grant_role_membership-keeps :
        (f : db.Session → Bool) (role user : String) (l l' : Live db.Session) (b : Bool)
        → ((s t : db.Session) → db.run (grant_sql role user) [] s ≡ (ok tt, t) → f t ≡ f s)
        → grant_role_membership role user l ≡ (ok b, l')
        → f l'.session ≡ f l.session
    unfolding grant_role_membership
    grant_role_membership-keeps f role user l l' b keep h = elim (Bool-cases (user == role)) [
      | inl self ↦ ground arith
      | inr other ↦ bind-elim (is_member_of_role role user) _ l l' b (rw other at h) λ im u p q.
          let (e, same) = is_member_of_role-eq-ok role user l u im p in
          elim (Bool-cases im) [
            | inl already ↦ ground arith
            | inr missing ↦
                let (e', run) = exec-eq-ok _ _ [] true b u l' (rw missing at q) in
                keep u.session l'.session run ∙ ap (λ (k : Live db.Session). f k.session) same
          ]
    ]

    -- and the same for REVOKE
    pub revoke_role_membership-keeps :
        (f : db.Session → Bool) (role user : String) (l l' : Live db.Session) (b : Bool)
        → ((s t : db.Session) → db.run (revoke_sql role user) [] s ≡ (ok tt, t) → f t ≡ f s)
        → revoke_role_membership role user l ≡ (ok b, l')
        → f l'.session ≡ f l.session
    unfolding revoke_role_membership
    revoke_role_membership-keeps f role user l l' b keep h = elim (Bool-cases (user == role)) [
      | inl self ↦ ground arith
      | inr other ↦ bind-elim (is_member_of_role role user) _ l l' b (rw other at h) λ im u p q.
          let (e, same) = is_member_of_role-eq-ok role user l u im p in
          elim (Bool-cases im) [
            | inr missing ↦ ground arith
            | inl present ↦
                let (e', run) = exec-eq-ok _ _ [] true b u l' (rw present at q) in
                keep u.session l'.session run ∙ ap (λ (k : Live db.Session). f k.session) same
          ]
    ]

    pub grant_role_membership-exists :
        (role user x : String) (l l' : Live db.Session) (b : Bool)
        → grant_role_membership role user l ≡ (ok b, l')
        → law.exists l'.session x ≡ law.exists l.session x
    grant_role_membership-exists role user x l l' b =
        grant_role_membership-keeps (λ s. law.exists s x) role user l l' b
          (λ s t. law.granted_exists s t role user x)

    pub revoke_role_membership-exists :
        (role user x : String) (l l' : Live db.Session) (b : Bool)
        → revoke_role_membership role user l ≡ (ok b, l')
        → law.exists l'.session x ≡ law.exists l.session x
    revoke_role_membership-exists role user x l l' b =
        revoke_role_membership-keeps (λ s. law.exists s x) role user l l' b
          (λ s t. law.revoked_exists s t role user x)
