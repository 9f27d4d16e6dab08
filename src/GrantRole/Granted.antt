-- ===== src/GrantRole/Granted.antt =====
-- Creating a postgresql_grant_role leaves just the membership that the configuration asks for.
use yb_terraform_provider_po.Prelude.{
  String, Bool, true, false, ◌&&◌, List, [], ◌∷◌, ◌<>◌, ◌==◌, ◌≡◌, ap, ◌∙◌, arith, eq_refl, Option,
  none, some, if◌then◌else◌, Bool-cases, inl, inr,
}
use yb_terraform_provider_po.Prelude.Result.{Result, Result-cases, ok, err, bind-elim, ◌>>◌}
use yb_terraform_provider_po.Postgres.{Value, Row, Pq, Server}
use yb_terraform_provider_po.Terraform.{ResourceData}
use yb_terraform_provider_po.Terraform
use yb_terraform_provider_po.Transaction.{
  Live, Machine, Connection, exec, query_row, set, set_id, transaction, handler_set_id, directly,
}
use yb_terraform_provider_po.Transaction.Atomic.{transaction-eq-ok}
use yb_terraform_provider_po.Membership.{grant_sql, revoke_sql}
use yb_terraform_provider_po.GrantRole.{
  get_grant_role_query, grant_role_id, generate_grant_role_id, check_feature, read_grant_role,
  grant_role_create, grant_role, revoke_role, regrant, create_grant_role_query,
  create_revoke_role_query,
}

-- the rows of a membership, with its admin option
abbrev pub membership_rows : String → String → Option Bool → List Row
membership_rows member role none = []
membership_rows member role (some admin) =
    (Value.text member ∷ Value.text role ∷ Value.bool admin ∷ []) ∷ []

-- the answer of a query, where it does not fail
abbrev pub AnswersRows : Result (List Row) → List Row → Type 0
AnswersRows (ok rows) expected = rows ≡ expected
AnswersRows (err e) expected = Unit

abbrev pub is_admin : Option Bool → Bool
is_admin none = false
is_admin (some admin) = admin

-- What PostgreSQL documents of the statements on the membership of `member` in `role`: a GRANT makes it
-- one and keeps an admin option that it has, WITH ADMIN OPTION gives that option, a REVOKE ends the
-- membership, and none of them touches another one.
pub record AdminMemberships ⦃db : Server⦄ ⦃pq : Pq⦄ (role member : String) : Type 0 where
  pub admin : db.Session → String → String → Option Bool
  pub granted :
      (s t : db.Session) (x y : String)
      → db.run (grant_sql role member) [] s ≡ (ok tt, t)
      → admin t x y
        ≡ (if x == member && y == role then some (is_admin (admin s x y)) else admin s x y)
  pub granted_admin :
      (s t : db.Session) (x y : String)
      → db.run (grant_sql role member <> " WITH ADMIN OPTION") [] s ≡ (ok tt, t)
      → admin t x y ≡ (if x == member && y == role then some true else admin s x y)
  pub revoked :
      (s t : db.Session) (x y : String)
      → db.run (revoke_sql role member) [] s ≡ (ok tt, t)
      → admin t x y ≡ (if x == member && y == role then none else admin s x y)
  -- the query of the provider reports it
  pub admin_rows :
      (s : db.Session)
      → AnswersRows
          (db.rows get_grant_role_query (Value.text member ∷ Value.text role ∷ []) s)
          (membership_rows member role (admin s member role))
  -- and a committed session is what a later connection sees
  pub committed :
      (s : db.Session) (w w' : db.World) (x y : String)
      → db.finish s w ≡ (ok tt, w')
      → admin (db.direct w') x y ≡ admin s x y

module _ ⦃db : Server⦄ ⦃pq : Pq⦄ where
  revoke_role-run :
      (d : ResourceData) (l l' : Live db.Session)
      → revoke_role d l ≡ (ok tt, l')
      → db.run (revoke_sql (d.get_string "grant_role") (d.get_string "role")) [] l.session
        ≡ (ok tt, l'.session)
  unfolding revoke_role exec create_revoke_role_query
  revoke_role-run d l l' h = ground arith

  grant_role-run :
      (d : ResourceData) (l l' : Live db.Session)
      → grant_role d l ≡ (ok tt, l')
      → db.run (create_grant_role_query d) [] l.session ≡ (ok tt, l'.session)
  unfolding grant_role exec
  grant_role-run d l l' h = ground arith

  -- On a server that acts as `AdminMemberships` says, where the transaction of a creation succeeds:
  -- the role is a member of the granted role with the admin option exactly if the configuration
  -- says so, whatever the membership was before; and no other membership has changed.
  pub regrant-granted :
      (d : ResourceData) (law : AdminMemberships (d.get_string "grant_role") (d.get_string "role"))
      (l l' : Live db.Session) (x y : String)
      → regrant d l ≡ (ok tt, l')
      → law.admin l'.session x y ≡ (
          if x == d.get_string "role" && y == d.get_string "grant_role"
          then some (d.get_bool "with_admin_option")
          else law.admin l.session x y)
  unfolding regrant create_grant_role_query
  regrant-granted d law l l' x y h = bind-elim (revoke_role d) _ l l' tt h λ _ u p q.
      let gone = law.revoked l.session u.session x y (revoke_role-run d l u p) in
      let run = grant_role-run d u l' q in
      elim (Bool-cases (d.get_bool "with_admin_option")) [
        | inl admin ↦
            ground (arith, gone, law.granted_admin u.session l'.session x y (rw admin at run))
        | inr plain ↦ ground (arith, gone, law.granted u.session l'.session x y (rw plain at run))
      ]

  read_grant_role-eq-ok :
      (d : ResourceData) (l l' : Live db.Session) (admin : Bool)
      → AnswersRows
          (db.rows get_grant_role_query
            (Value.text (d.get_string "role") ∷ Value.text (d.get_string "grant_role") ∷ [])
            l.session)
          (membership_rows (d.get_string "role") (d.get_string "grant_role") (some admin))
      → read_grant_role d l ≡ (ok tt, l')
      → l'.resource.id ≡ grant_role_id (d.get_string "role") (d.get_string "grant_role") admin
  unfolding read_grant_role query_row set set_id
  read_grant_role-eq-ok d l l' admin e h =
      elim (Result-cases (
        db.rows get_grant_role_query
          (Value.text (d.get_string "role") ∷ Value.text (d.get_string "grant_role") ∷ [])
          l.session)) [
            | inl (rows, r) ↦ let e' = rw r at e in ground (arith, r, e')
            | inr (x, r) ↦ ground (arith, r)
          ]

  directly-eq-ok :
      (i : String) (d : ResourceData) (m m' : Machine db.World)
      → (handler_set_id i >> directly (read_grant_role d)) m ≡ (ok tt, m')
      → (m'.world ≡ m.world)
        × (l' : Live db.Session) × (read_grant_role d
              (record { session = db.direct m.world; resource = Terraform.set_id i m.resource })
            ≡ (ok tt, l'))
        × (m'.resource ≡ l'.resource)
  unfolding handler_set_id directly
  directly-eq-ok i d m m' h =
      let l : Live db.Session = record {
        session = db.direct m.world;
        resource = Terraform.set_id i m.resource;
      } in
      (ground arith, (read_grant_role d l).1, ground arith, ground arith)

  -- On a server whose GRANT, REVOKE and COMMIT act on the membership as `AdminMemberships` says: a
  -- creation that succeeds has committed the membership with the configured admin option, whatever
  -- it was before, and the id that it reads back is the one made from the configuration.
  pub grant_role_create-granted :
      (c : Connection) (d : ResourceData)
      (law : AdminMemberships (d.get_string "grant_role") (d.get_string "role"))
      (m m' : Machine db.World)
      → grant_role_create c d m ≡ (ok tt, m')
      → (law.admin (db.direct m'.world) (d.get_string "role") (d.get_string "grant_role")
          ≡ some (d.get_bool "with_admin_option"))
        × (m'.resource.id ≡ generate_grant_role_id d)
  unfolding grant_role_create check_feature generate_grant_role_id handler_set_id directly
  grant_role_create-granted c d law m m' h = bind-elim (check_feature c) _ m m' tt h λ _ m₁ p q.
      bind-elim (transaction c.client "" "could not commit transaction: " (regrant d)) _ m₁ m' tt q
        λ _ m₂ p' q'.
          let (s, l, start, run, finish) =
            transaction-eq-ok c.client "" "could not commit transaction: " (regrant d) m₁ m₂ tt
              p' in
          let (world, k, read, same) =
            directly-eq-ok
              (grant_role_id (d.get_string "role") (d.get_string "grant_role")
                (d.get_bool "with_admin_option"))
              d m₂ m' q' in
          let admin =
            law.committed l.session m₁.world m₂.world (d.get_string "role")
              (d.get_string "grant_role") finish in
          let now =
            regrant-granted d law (record { session = s; resource = m₁.resource }) l
              (d.get_string "role") (d.get_string "grant_role") run in
          let granted : law.admin (db.direct m₂.world) (d.get_string "role")
                (d.get_string "grant_role")
              ≡ some (d.get_bool "with_admin_option") =
            ground (
              arith,
              admin,
              now,
              eq_refl (d.get_string "role"),
              eq_refl (d.get_string "grant_role"),
            ) in
          let rows = rw granted at (law.admin_rows (db.direct m₂.world)) in
          (
            rw world granted,
            ap (λ (r : ResourceData). r.id) same
                ∙ read_grant_role-eq-ok d
                    (record {
                      session = db.direct m₂.world;
                      resource =
                          Terraform.set_id
                            (grant_role_id (d.get_string "role") (d.get_string "grant_role")
                              (d.get_bool "with_admin_option"))
                            m₂.resource;
                    })
                    k (d.get_bool "with_admin_option") rows read,
          )
