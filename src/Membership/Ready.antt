-- ===== src/Membership/Ready.antt =====
-- The wrapped function of withRolesGranted runs as a member of the roles that were asked for.
use yb_terraform_provider_po.Prelude.{
  String, Bool, true, false, List, [], ◌∷◌, ◌==◌, eq_iff, eq_refl, ◌≡◌, ◌≢◌, sym, ◌∙◌, arith,
  Bool-cases, inl, inr,
}
use yb_terraform_provider_po.Prelude.Result.{Result, ok, bind-elim}
use yb_terraform_provider_po.Postgres.{Value, Row, Pq, Server}
use yb_terraform_provider_po.Transaction.{Live, Txn, query_row}
use yb_terraform_provider_po.Catalog.{is_superuser, get_current_user}
use yb_terraform_provider_po.Slices.{slice_contains_str}
use yb_terraform_provider_po.Membership.{
  Changed, grant_sql, revoke_sql, revoke_role_membership, grant_role_membership, prepare_role,
  prepare_roles, around, with_roles_granted,
}
use yb_terraform_provider_po.Membership.Laws.{
  Memberships, members, grant_role_membership-eq-ok, revoke_role_membership-eq-ok,
  grant_role_membership-keeps, revoke_role_membership-keeps,
}

-- the answer of a query for one Boolean, where the query does not fail
abbrev pub AnswersBool : Result (List Row) → Bool → Type 0
AnswersBool (ok ((Value.bool b ∷ []) ∷ rows)) a = b ≡ a
AnswersBool _ a = Unit

-- What PostgreSQL documents of superusers: `rolsuper` says which roles are, and neither GRANT nor
-- REVOKE of a membership changes that.
pub record Superusers ⦃db : Server⦄ ⦃pq : Pq⦄ : Type 0 where
  pub superuser : db.Session → String → Bool
  pub superuser_rows :
      (s : db.Session) (role : String)
      → AnswersBool
          (db.rows "SELECT rolsuper FROM pg_roles WHERE rolname = $1" (Value.text role ∷ []) s)
          (superuser s role)
  pub granted_superuser :
      (s t : db.Session) (role user x : String)
      → db.run (grant_sql role user) [] s ≡ (ok tt, t)
      → superuser t x ≡ superuser s x
  pub revoked_superuser :
      (s t : db.Session) (role user x : String)
      → db.run (revoke_sql role user) [] s ≡ (ok tt, t)
      → superuser t x ≡ superuser s x

module _ ⦃db : Server⦄ where
  is_superuser-rows :
      (role : String) (l l' : Live db.Session) (b a : Bool)
      → AnswersBool
          (db.rows "SELECT rolsuper FROM pg_roles WHERE rolname = $1"
            (Value.text role ∷ [])
            l.session)
          a
      → is_superuser role l ≡ (ok b, l')
      → (b ≡ a) × (l' ≡ l)
  unfolding is_superuser query_row
  is_superuser-rows role l l' b a w h = ground arith

  module _ ⦃pq : Pq⦄ (sup : Superusers) where
    abbrev pub superusers : Live db.Session → String → Bool
    superusers l = sup.superuser l.session

  module _ ⦃pq : Pq⦄ (law : Memberships) (sup : Superusers) (user : String) where
    -- what a round of the loop for `role` does for the memberships of the current user
    abbrev Readies : String → Live db.Session → Live db.Session → Type 0
    Readies role l l' =
        (superusers sup l role ≡ false → role ≢ user → members law l' role user ≡ true)
        × ((x : String) → x ≢ user → members law l x user ≡ true → members law l' x user ≡ true)
        × ((x : String) → superusers sup l' x ≡ superusers sup l x)

    prepare_role-Readies :
        (role : String) (c c' : Changed) (l l' : Live db.Session)
        → prepare_role user role c l ≡ (ok c', l')
        → Readies role l l'
    unfolding prepare_role
    prepare_role-Readies role c c' l l' h =
        bind-elim (is_superuser role) _ l l' c' h λ superuser u p q.
          let (e, same) =
            is_superuser-rows role l u superuser _ (sup.superuser_rows l.session role) p in
          elim (Bool-cases superuser) [
            | inl above ↦
                let q' = rw above at q in (ground arith, λ x n m. ground arith, λ x. ground arith)
            | inr below ↦
                bind-elim (revoke_role_membership user role) _ u l' c' (rw below at q) λ b₁ v p₁ q₁.
                  bind-elim (grant_role_membership role user) _ v l' c' q₁ λ b₂ w p₂ q₂.
                    let (e₁, m₁) = revoke_role_membership-eq-ok law user role u v b₁ p₁ in
                    let (e₂, m₂) = grant_role_membership-eq-ok law role user v w b₂ p₂ in
                    let s₁ : (x : String) → superusers sup v x ≡ superusers sup u x = λ x.
                      revoke_role_membership-keeps law (λ s. sup.superuser s x) user role u v b₁
                        (λ s t. sup.revoked_superuser s t user role x) p₁ in
                    let s₂ : (x : String) → superusers sup w x ≡ superusers sup v x = λ x.
                      grant_role_membership-keeps law (λ s. sup.superuser s x) role user v w b₂
                        (λ s t. sup.granted_superuser s t role user x) p₂ in
                    let back : w ≡ l' = cc in
                    (
                      λ n m.
                          ground
                            (arith, e₂, m₂ role user, eq_refl role, eq_refl user, eq_iff user role),
                      λ x n m. ground (arith, m₁ x user, m₂ x user, eq_iff x user),
                      λ x. ground (arith, s₁ x, s₂ x),
                    )
          ]

    prepare_roles-Readies :
        (roles : List String) (c c' : Changed) (l l' : Live db.Session)
        → prepare_roles user roles c l ≡ (ok c', l')
        → ((x : String)
            → slice_contains_str roles x ≡ true
            → superusers sup l x ≡ false
            → x ≢ user
            → members law l' x user ≡ true)
          × ((x : String) → x ≢ user → members law l x user ≡ true → members law l' x user ≡ true)
    unfolding prepare_roles slice_contains_str
    prepare_roles-Readies [] c c' l l' h = (λ x e n m. absurd (cc), λ x n m. ground arith)
    prepare_roles-Readies (role ∷ roles) c c' l l' h =
        bind-elim (prepare_role user role c) _ l l' c' h λ d u p q.
          let (now, stays, same) = prepare_role-Readies role c d l u p in
          let (later, stays') = prepare_roles-Readies roles d c' u l' q in
          (
            λ x e n m. elim (Bool-cases (role == x)) [
              | inl it ↦ ground (arith, now, stays' x m, eq_iff role x)
              | inr other ↦ ground (arith, later x, same x)
            ],
            λ x n m. stays' x n (stays x n m),
          )

    -- On a server that acts as `Memberships` and `Superusers` say, where the connected user is no
    -- superuser: a call of withRolesGranted that succeeds has run the wrapped function,
    -- successfully, in a session where the connected user was a member of every role of the list
    -- that is no superuser and not the connected user.
    pub with_roles_granted-ready :
        (roles : List String) (fn : Txn (Unit {0})) (l l' : Live db.Session)
        → get_current_user l ≡ (ok user, l)
        → superusers sup l user ≡ false
        → with_roles_granted roles fn l ≡ (ok tt, l')
        → (u : Live db.Session) × (v : Live db.Session) × (fn u ≡ (ok tt, v))
          × ((x : String)
              → slice_contains_str roles x ≡ true
              → superusers sup l x ≡ false
              → x ≢ user
              → members law u x user ≡ true)
    unfolding with_roles_granted around slice_contains_str
    with_roles_granted-ready [] fn l l' me below h = (l, l', h, λ x e n m. absurd (cc))
    with_roles_granted-ready (role ∷ roles) fn l l' me below h =
        bind-elim get_current_user _ l l' tt h λ user' k p q.
          let e : user' ≡ user = ground (arith, sym p ∙ me) in
          let k-eq : k ≡ l = ground (arith, sym p ∙ me) in
          bind-elim (is_superuser user') _ k l' tt q λ superuser m p' q'.
            let (b, same) =
              is_superuser-rows user' k m superuser _ (sup.superuser_rows k.session user') p' in
            let low : superuser ≡ false = cc in
            bind-elim (prepare_roles user' (role ∷ roles) (record { granted = []; revoked = [] })) _
              m l' tt (rw low at q')
              λ c u p₁ q₁. bind-elim fn _ u l' tt q₁ λ _ v p₂ q₂.
                let start = rw (e, same, k-eq) at p₁ in
                (u, v, p₂, (prepare_roles-Readies (role ∷ roles) _ c l u start).0)
