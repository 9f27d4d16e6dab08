-- ===== src/Membership/Restored.antt =====
-- withRolesGranted gives the memberships back that it has changed.
use yb_terraform_provider_po.Prelude.{
  String, Bool, true, false, not, ◌&&◌, List, [], ◌∷◌, ◌==◌, eq_iff, ◌≡◌, refl, ap, sym, ◌∙◌, arith,
  if◌then◌else◌, Bool-cases, inl, inr,
}
use yb_terraform_provider_po.Prelude.Result.{ok, for_each, bind-elim}
use yb_terraform_provider_po.Postgres.{Pq, Server}
use yb_terraform_provider_po.Transaction.{Live, Txn, query_row}
use yb_terraform_provider_po.Catalog.{is_superuser, get_current_user, role_exists}
use yb_terraform_provider_po.Slices.{slice_contains_str}
use yb_terraform_provider_po.Membership.{
  Changed, revoke_role_membership, grant_role_membership, prepare_role, prepare_roles, grant_back,
  revoke_granted, around, with_roles_granted,
}
use yb_terraform_provider_po.Membership.Laws.{
  Memberships, members, row_exists-eq-ok, grant_role_membership-eq-ok, revoke_role_membership-eq-ok,
  grant_role_membership-exists, revoke_role_membership-exists,
}
use yb_terraform_provider_po.Membership.Track.{
  Matrix, Tracks, Tracks-of_eq, Tracks-note, Tracks-start,
}

module _ ⦃db : Server⦄ where
  pub is_superuser-session :
      (role : String) (l l' : Live db.Session) (b : Bool)
      → is_superuser role l ≡ (ok b, l')
      → l' ≡ l
  unfolding is_superuser query_row
  is_superuser-session role l l' b h = ground arith

  pub get_current_user-session :
      (l l' : Live db.Session) (user : String) → get_current_user l ≡ (ok user, l') → l' ≡ l
  unfolding get_current_user query_row
  get_current_user-session l l' user h = ground arith

  module _ ⦃pq : Pq⦄ (law : Memberships) (user : String) where
    Tracks-at :
        (before : Matrix) (c c' : Changed) (l l' : Live db.Session)
        → c ≡ c'
        → l ≡ l'
        → Tracks user before c (members law l)
        → Tracks user before c' (members law l')
    Tracks-at before c c' l l' p q t = Tracks-of_eq p (ap (members law) q) t

    prepare_role-Tracks :
        (before : Matrix) (role : String) (c c' : Changed) (l l' : Live db.Session)
        → prepare_role user role c l ≡ (ok c', l')
        → Tracks user before c (members law l)
        → Tracks user before c' (members law l')
    unfolding prepare_role
    prepare_role-Tracks before role c c' l l' h t =
        bind-elim (is_superuser role) _ l l' c' h λ superuser u p q.
          let same = is_superuser-session role l u superuser p in
          elim (Bool-cases superuser) [
            | inl yes_super ↦ let q' = rw yes_super at q in Tracks-at before c c' l l' (cc) (cc) t
            | inr no_super ↦
                bind-elim (revoke_role_membership user role) _ u l' c' (rw no_super at q)
                  λ b₁ v p₁ q₁.
                    bind-elim (grant_role_membership role user) _ v l' c' q₁ λ b₂ w p₂ q₂.
                      let (e₁, m₁) = revoke_role_membership-eq-ok law user role u v b₁ p₁ in
                      let (e₂, m₂) = grant_role_membership-eq-ok law role user v w b₂ p₂ in
                      let t' = Tracks-of_eq refl (ap (members law) (sym same)) t in
                      Tracks-at before _ c' w l' (cc) (cc) (
                        Tracks-note user role before c (members law u) (members law v)
                          (members law w) b₁ b₂ t' e₁ m₁ e₂ m₂)
          ]

    prepare_roles-Tracks :
        (before : Matrix) (roles : List String) (c c' : Changed) (l l' : Live db.Session)
        → prepare_roles user roles c l ≡ (ok c', l')
        → Tracks user before c (members law l)
        → Tracks user before c' (members law l')
    unfolding prepare_roles
    prepare_roles-Tracks before [] c c' l l' h t = Tracks-at before c c' l l' (cc) (cc) t
    prepare_roles-Tracks before (role ∷ roles) c c' l l' h t =
        bind-elim (prepare_role user role c) _ l l' c' h λ d u p q.
          prepare_roles-Tracks before roles d c' u l' q
            (prepare_role-Tracks before role c d l u p t)

    -- the loop over the granted roles
    revoke_granted_loop :
        (granted : List String) (l l' : Live db.Session) (x y : String)
        → for_each granted (revoke_granted user) l ≡ (ok tt, l')
        → members law l' x y ≡ (
            if y == user && (slice_contains_str granted x && not (user == x))
            then false
            else members law l x y)
    unfolding revoke_granted slice_contains_str
    revoke_granted_loop [] l l' x y h = ground arith
    revoke_granted_loop (g ∷ granted) l l' x y h =
        bind-elim (revoke_granted user g) _ l l' tt h λ _ u p q.
          bind-elim (revoke_role_membership g user) _ l u tt p λ b v p' q'.
            let (e, m) = revoke_role_membership-eq-ok law g user l v b p' in
            let same : v ≡ u = cc in
            ground (
              arith,
              revoke_granted_loop granted u l' x y q,
              m x y,
              eq_iff x g,
              eq_iff y user,
              eq_iff user g,
              eq_iff user x,
              eq_iff g x,
            )

    grant_back-eq-ok :
        (role x y z : String) (l l' : Live db.Session)
        → grant_back user role l ≡ (ok tt, l')
        → (members law l' x y ≡ (
            if law.exists l.session role && (x == user && (y == role && not (y == user)))
            then true
            else members law l x y))
          × (law.exists l'.session z ≡ law.exists l.session z)
    unfolding grant_back role_exists
    grant_back-eq-ok role x y z l l' h = bind-elim (role_exists role) _ l l' tt h λ b u p q.
        let (e, same) = row_exists-eq-ok _ _ _ l u _ b (law.role_rows l.session role) p in
        elim (Bool-cases b) [
          | inr gone ↦ let q' = rw gone at q in (ground arith, ground arith)
          | inl there ↦
              bind-elim (grant_role_membership user role) _ u l' tt (rw there at q) λ g v p' q'.
                let (e', m) = grant_role_membership-eq-ok law user role u v g p' in
                (
                  ground
                      (arith, m x y, eq_iff x user, eq_iff y role, eq_iff role user, eq_iff y user),
                  ground (arith, grant_role_membership-exists law user role z u v g p'),
                )
        ]

    -- the loop over the revoked roles, for a role that still exists
    grant_back_loop :
        (revoked : List String) (l l' : Live db.Session) (x y : String)
        → for_each revoked (grant_back user) l ≡ (ok tt, l')
        → law.exists l.session y ≡ true
        → members law l' x y ≡ (
            if x == user && (slice_contains_str revoked y && not (y == user))
            then true
            else members law l x y)
    unfolding slice_contains_str
    grant_back_loop [] l l' x y h there = ground arith
    grant_back_loop (r ∷ revoked) l l' x y h there =
        bind-elim (grant_back user r) _ l l' tt h λ _ u p q.
          let (m, e) = grant_back-eq-ok r x y y l u p in
          ground (
            arith,
            grant_back_loop revoked u l' x y q,
            eq_iff x user,
            eq_iff y r,
            eq_iff r y,
            eq_iff y user,
          )

    revoke_granted_loop-exists :
        (granted : List String) (l l' : Live db.Session) (x : String)
        → for_each granted (revoke_granted user) l ≡ (ok tt, l')
        → law.exists l'.session x ≡ law.exists l.session x
    unfolding revoke_granted
    revoke_granted_loop-exists [] l l' x h = ground arith
    revoke_granted_loop-exists (g ∷ granted) l l' x h =
        bind-elim (revoke_granted user g) _ l l' tt h λ _ u p q.
          bind-elim (revoke_role_membership g user) _ l u tt p λ b v p' q'. ground (
            arith,
            revoke_granted_loop-exists granted u l' x q,
            revoke_role_membership-exists law g user x l v b p',
          )

    pub around-eq-ok :
        (roles : List String) (fn : Txn (Unit {0})) (l l' : Live db.Session) (x y : String)
        → ((u v : Live db.Session) → fn u ≡ (ok tt, v) → members law v x y ≡ members law u x y)
        → ((u v : Live db.Session) → fn u ≡ (ok tt, v) → law.exists v.session y ≡ true)
        → around user roles fn l ≡ (ok tt, l')
        → members law l' x y ≡ members law l x y
    unfolding around
    around-eq-ok roles fn l l' x y keeps alive h =
        bind-elim (prepare_roles user roles (record { granted = []; revoked = [] })) _ l l' tt h
          λ c u p q. bind-elim fn _ u l' tt q λ _ v p' q'.
            bind-elim (for_each c.granted (revoke_granted user)) _ v l' tt q' λ _ w p'' q''.
              let t =
                prepare_roles-Tracks (members law l) roles _ c l u p
                  (Tracks-start user (members law l)) in
              ground (
                arith,
                t.now x y,
                t.was_absent x,
                t.was_present y,
                keeps u v p',
                revoke_granted_loop c.granted v w x y p'',
                grant_back_loop c.revoked w l' x y q''
                    (revoke_granted_loop-exists c.granted v w y p'' ∙ alive u v p'),
                eq_iff y user,
                eq_iff x user,
                eq_iff user x,
              )

  module _ ⦃pq : Pq⦄ (law : Memberships) where
    -- On a server whose GRANT, REVOKE and catalogs act on memberships as `Memberships` says, and
    -- whatever roles are asked for: if withRolesGranted succeeds and the wrapped function neither
    -- changes whether `y` is a member of `x` nor drops the role `y`, then `y` is a member of `x`
    -- afterwards exactly if it was before.
    pub with_roles_granted-restores :
        (roles : List String) (fn : Txn (Unit {0})) (l l' : Live db.Session) (x y : String)
        → ((u v : Live db.Session) → fn u ≡ (ok tt, v) → members law v x y ≡ members law u x y)
        → ((u v : Live db.Session) → fn u ≡ (ok tt, v) → law.exists v.session y ≡ true)
        → with_roles_granted roles fn l ≡ (ok tt, l')
        → members law l' x y ≡ members law l x y
    unfolding with_roles_granted
    with_roles_granted-restores [] fn l l' x y keeps alive h = keeps l l' h
    with_roles_granted-restores (role ∷ roles) fn l l' x y keeps alive h =
        bind-elim get_current_user _ l l' tt h λ user u p q.
          bind-elim (is_superuser user) _ u l' tt q λ superuser v p' q'.
            let same = get_current_user-session l u user p in
            let same' = is_superuser-session user u v superuser p' in
            elim (Bool-cases superuser) [
              | inl above ↦ ground (arith, keeps v l' (rw above at q'))
              | inr below ↦ ground (
                arith,
                around-eq-ok law user (role ∷ roles) fn v l' x y keeps alive (rw below at q'),
              )
            ]
