-- ===== src/Database/Restored.antt =====
-- The temporary membership around an operation on a database: with_owner_granted takes back what it has
-- granted.
use mathlib.Core.Path.{subst}
use yb_terraform_provider_po.Prelude.{
  String, Bool, true, false, not, ◌&&◌, ◌==◌, eq_iff, ◌≡◌, ◌⊎◌, inl, inr, refl, sym, ap, ◌∙◌, arith,
  if◌then◌else◌,
}
use yb_terraform_provider_po.Prelude.Result.{Result, ok, err, pure, bind-elim, ◌>>=◌, continue}
use yb_terraform_provider_po.Postgres.{Pq, Server}
use yb_terraform_provider_po.Transaction.{
  Live, Machine, Client, Txn, Handler, autocommit, deferring, rolled_back, get_database_username,
}
use yb_terraform_provider_po.Transaction.Atomic.{CommitsOrRollsBack, IsErr, rolled_back-IsReading}
use yb_terraform_provider_po.Transaction.Autocommit.{IsAutocommitted, autocommit_cases, at_once}
use yb_terraform_provider_po.Catalog.{pg_lock_role}
use yb_terraform_provider_po.Membership.{grant_role_membership, revoke_role_membership}
use yb_terraform_provider_po.Membership.Laws.{
  Memberships, grant_role_membership-eq-ok, revoke_role_membership-eq-ok,
}
use yb_terraform_provider_po.Database.{with_owner_granted, revoke_again}

module _ ⦃db : Server⦄ ⦃pq : Pq⦄ (law : Memberships) where
  -- PostgreSQL's documentation of COMMIT: the changes of a transaction that is committed are visible to
  -- a new connection.
  abbrev pub Shows : Type 0
  Shows =
      (s : db.Session) (w w' : db.World) (x y : String)
      → db.finish s w ≡ (ok tt, w')
      → law.member (db.direct w') x y ≡ law.member s x y

  -- the memberships that a new connection sees
  abbrev pub seen : Machine db.World → String → String → Bool
  seen m = law.member (db.direct m.world)

  abbrev pub LeavesMemberships : {A : Type 0} → Handler A → Type 0
  LeavesMemberships h = (m : Machine db.World) (x y : String) → seen (h m).1 x y ≡ seen m x y

  -- the result of an autocommitted grant
  IsGranted : String → String → Machine db.World → Result Bool × Machine db.World → Type 0
  IsGranted owner user m (r, m') =
      (IsErr r × ((x y : String) → seen m' x y ≡ seen m x y))
      ⊎ ((b : Bool) × (r ≡ ok b)
          × (b ≡ (not (user == owner) && not (seen m owner user)))
          × ((x y : String)
              → seen m' x y ≡ (if b && (x == owner && y == user) then true else seen m x y)))

  IsGranted-cases :
      (owner user : String) (m : Machine db.World) (x : Result Bool × Machine db.World)
      → Shows
      → IsAutocommitted (grant_role_membership owner user) m x
      → IsGranted owner user m x
  unfolding IsGranted
  IsGranted-cases owner user m x shows (inl (e, w)) =
      inl (e, λ x y. ap (λ v. law.member (db.direct v) x y) w)
  IsGranted-cases owner user m (r, m') shows (inr (b, l, e, p, q)) =
      let (f, g) = grant_role_membership-eq-ok law owner user (at_once m) l b p in
      inr (b, e, f, λ x y. shows l.session m.world m'.world x y q ∙ g x y)

  -- the result of the deferred call
  IsRevoked : String → String → Machine db.World → Result (Unit {0}) × Machine db.World → Type 0
  IsRevoked owner user m (r, m') =
      (IsErr r × ((x y : String) → seen m' x y ≡ seen m x y))
      ⊎ ((x y : String)
          → seen m' x y
            ≡ (if not (user == owner) && (x == owner && y == user) then false else seen m x y))

  IsRevoked-cases :
      (owner user : String) (m : Machine db.World) (x : Result (Unit {0}) × Machine db.World)
      → Shows
      → IsAutocommitted (revoke_role_membership owner user >>= λ _. pure tt) m x
      → IsRevoked owner user m x
  unfolding IsRevoked
  IsRevoked-cases owner user m x shows (inl (e, w)) =
      inl (e, λ x y. ap (λ v. law.member (db.direct v) x y) w)
  IsRevoked-cases owner user m (r, m') shows (inr (a, l, e, p, q)) = inr λ x y.
      bind-elim (revoke_role_membership owner user) (λ _. pure tt) (at_once m) l a p
        λ b u p' q'.
          let (f, g) = revoke_role_membership-eq-ok law owner user (at_once m) u b p' in
          let same : u ≡ l = cc in
          ground (
            arith,
            shows l.session m.world m'.world x y q,
            g x y,
            ap (λ (k : Live db.Session). law.member k.session x y) same,
            eq_iff x owner,
            eq_iff y user,
          )

  -- the machine on which the deferred REVOKE of a run on `m` works: behind the lock, the GRANT and the
  -- operation
  abbrev pub before_revoke :
      Client → String → Handler (Unit {0}) → Machine db.World → Machine db.World
  before_revoke client owner operation m =
      let user = get_database_username client in
      let locked = (rolled_back client "" (pg_lock_role user) m).1 in
      (operation (autocommit (grant_role_membership owner user) locked).1).1

  -- the memberships are those of before, or the REVOKE on the machine `k` fails and just the membership
  -- that was granted is left
  abbrev pub IsRestored :
      String → String → Machine db.World → Machine db.World → Machine db.World → Type 0
  IsRestored owner user m k m' =
      ((x y : String) → seen m' x y ≡ seen m x y)
      ⊎ ((seen m owner user ≡ false)
          × IsErr (revoke_again owner user true k).0
          × ((x y : String) → seen m' x y ≡ (if x == owner && y == user then true else seen m x y)))

  behind_revoke :
      (owner user : String) (m k : Machine db.World) (x : Result (Unit {0}) × Machine db.World)
      → (true ≡ (not (user == owner) && not (seen m owner user)))
      → ((x y : String) → seen k x y ≡ (if x == owner && y == user then true else seen m x y))
      → revoke_again owner user true k ≡ x
      → IsRevoked owner user k x
      → IsRestored owner user m k x.1
  unfolding IsRevoked
  behind_revoke owner user m k (r, m') needed before e (inl (failed, same)) =
      inr (ground arith, rw e failed, λ x y. same x y ∙ before x y)
  behind_revoke owner user m k (r, m') needed before e (inr after) = inl λ x y.
      ground
        (arith, needed, after x y, before x y, eq_iff x owner, eq_iff y user, eq_iff user owner)

  behind_operation :
      (owner user : String) (b : Bool) (m m₁ m₂ : Machine db.World)
      → Shows
      → CommitsOrRollsBack db
      → b ≡ (not (user == owner) && not (seen m owner user))
      → ((x y : String)
          → seen m₁ x y ≡ (if b && (x == owner && y == user) then true else seen m x y))
      → ((x y : String) → seen m₂ x y ≡ seen m₁ x y)
      → IsRestored owner user m m₂ (revoke_again owner user b m₂).1
  unfolding revoke_again
  behind_operation owner user false m m₁ m₂ shows rolls needed grants leaves =
      inl λ x y. leaves x y ∙ grants x y
  behind_operation owner user true m m₁ m₂ shows rolls needed grants leaves =
      let undo : Txn (Unit {0}) = revoke_role_membership owner user >>= λ _. pure tt in
      behind_revoke owner user m m₂ (autocommit undo m₂) needed (λ x y. leaves x y ∙ grants x y)
        refl
        (IsRevoked-cases owner user m₂ (autocommit undo m₂) shows (autocommit_cases undo m₂ rolls))

  behind_grant :
      (owner user : String) (operation : Handler (Unit {0})) (m : Machine db.World)
      (x : Result Bool × Machine db.World)
      → Shows
      → CommitsOrRollsBack db
      → LeavesMemberships operation
      → IsGranted owner user m x
      → IsRestored owner user m
          (operation x.1).1
          (continue x.0 (λ b. deferring operation (revoke_again owner user b)) x.1).1
  unfolding IsGranted deferring
  behind_grant owner user operation m (ok b, m₁) shows rolls leaves (inr (c, e, f, g)) =
      let same : c ≡ b = cc in
      behind_operation owner user b m m₁ (operation m₁).1 shows rolls (sym same ∙ f)
        (λ x y. rw (← same) (g x y)) (leaves m₁)
  behind_grant owner user operation m (ok b, m₁) shows rolls leaves (inl ((e, p), g)) = absurd (cc)
  behind_grant owner user operation m (err e, m₁) shows rolls leaves (inl (p, g)) = inl g
  behind_grant owner user operation m (err e, m₁) shows rolls leaves (inr (c, p, f, g)) =
      absurd (cc)

  -- Whatever an operation on a database returns, where it leaves the memberships alone: after it,
  -- with the temporary membership of the connected user in the owner around it, a new connection sees the
  -- memberships of before, unless the deferred REVOKE of this very run fails; then just the membership
  -- that was granted, and was missing before, is left.
  pub with_owner_granted-IsRestored :
      (client : Client) (owner : String) (operation : Handler (Unit {0})) (m : Machine db.World)
      → Shows
      → CommitsOrRollsBack db
      → LeavesMemberships operation
      → IsRestored owner
          (get_database_username client)
          m
          (before_revoke client owner operation m)
          (with_owner_granted client owner operation m).1
  unfolding with_owner_granted
  with_owner_granted-IsRestored client owner operation m shows rolls leaves =
      go _ _ (rolled_back-IsReading client "" (pg_lock_role user) m)
    where
      user : String
      user = get_database_username client

      go :
          (r : Result (Unit {0})) (m₀ : Machine db.World)
          → m₀.world ≡ m.world
          → IsRestored owner user m
              (operation (autocommit (grant_role_membership owner user) m₀).1).1
              (continue r
                (λ _. autocommit (grant_role_membership owner user) >>= λ b.
                  deferring operation (revoke_again owner user b))
                m₀).1
      go (err e) m₀ same = inl λ x y. ap (λ w. law.member (db.direct w) x y) same
      go (ok u) m₀ same =
          let grant = autocommit (grant_role_membership owner user) in
          let end = (grant >>= λ b. deferring operation (revoke_again owner user b)) m₀ in
          subst
            (λ w.
              IsRestored owner user (record { world = w; resource = m.resource })
                (operation (grant m₀).1).1 end.1)
            same
            (behind_grant owner user operation m₀ (grant m₀) shows rolls leaves (
              IsGranted-cases owner user m₀ (grant m₀) shows
                (autocommit_cases (grant_role_membership owner user) m₀ rolls)))
