-- ===== src/Membership/Track.antt =====
-- The bookkeeping of withRolesGranted: how the two lists that it keeps describe the memberships that
-- it has changed, and that undoing them gives the first memberships back.
use mathlib.Core.Path.{subst₂}
use yb_terraform_provider_po.Prelude.{
  String, Bool, true, false, not, ◌&&◌, [], ◌∷◌, ◌++◌, ◌==◌, eq_iff, ◌≡◌, arith, if◌then◌else◌,
}
use yb_terraform_provider_po.Slices.{slice_contains_str}
use yb_terraform_provider_po.Slices.Laws.{contains-concat}
use yb_terraform_provider_po.Membership.{Changed}

abbrev pub Matrix : Type 0
Matrix = String → String → Bool

-- `m` is `before` but for the pairs that the lists record, and each recorded change was needed
pub record Tracks (user : String) (before : Matrix) (c : Changed) (m : Matrix) : Type 0 where
  pub now :
      (x y : String)
      → m x y ≡ (
          if y == user && slice_contains_str c.granted x
          then true
          else if x == user && slice_contains_str c.revoked y
          then false
          else before x y)
  pub was_absent :
      (x : String)
      → slice_contains_str c.granted x ≡ true
      → (before x user ≡ false) × ((user == x) ≡ false)
  pub was_present :
      (y : String)
      → slice_contains_str c.revoked y ≡ true
      → (before user y ≡ true) × ((y == user) ≡ false)

pub Tracks-of_eq :
    {user : String} {before : Matrix} {c c' : Changed} {m m' : Matrix}
    → c ≡ c'
    → m ≡ m'
    → Tracks user before c m
    → Tracks user before c' m'
Tracks-of_eq {user} {before} p q t = subst₂ (λ c m. Tracks user before c m) p q t

abbrev pub note : Changed → String → Bool → Bool → Changed
note c role revoked granted = record {
  granted = if granted then c.granted ++ role ∷ [] else c.granted;
  revoked = if revoked then c.revoked ++ role ∷ [] else c.revoked;
}

pub Tracks-note :
    (user role : String) (before : Matrix) (c : Changed) (m m₁ m₂ : Matrix) (b₁ b₂ : Bool)
    → Tracks user before c m
    → b₁ ≡ (not (role == user) && m user role)
    → ((x y : String) → m₁ x y ≡ (if b₁ && (x == user && y == role) then false else m x y))
    → b₂ ≡ (not (user == role) && not (m₁ role user))
    → ((x y : String) → m₂ x y ≡ (if b₂ && (x == role && y == user) then true else m₁ x y))
    → Tracks user before (note c role b₁ b₂) m₂
Tracks-note user role before c m m₁ m₂ b₁ b₂ t e₁ h₁ e₂ h₂ = record {
  now = λ x y. ground (
    arith,
    h₂ x y,
    h₁ x y,
    h₁ role user,
    t.now x y,
    t.now user role,
    t.now role user,
    contains-concat c.granted role x,
    contains-concat c.revoked role y,
    eq_iff x role,
    eq_iff y role,
    eq_iff x user,
    eq_iff y user,
    eq_iff role user,
    eq_iff user role,
    eq_iff role x,
    eq_iff role y,
  );
  was_absent = λ x h. ground (
    arith,
    h₁ role user,
    t.now role user,
    t.was_absent x,
    contains-concat c.granted role x,
    eq_iff role user,
    eq_iff user role,
    eq_iff role x,
  );
  was_present = λ y h. ground (
    arith,
    t.now user role,
    t.was_present y,
    contains-concat c.revoked role y,
    eq_iff role user,
    eq_iff user role,
    eq_iff role y,
  );
}

pub Tracks-start :
    (user : String) (before : Matrix)
    → Tracks user before (record { granted = []; revoked = [] }) before
unfolding slice_contains_str
Tracks-start user before = record {
  now = λ x y. ground arith;
  was_absent = λ x h. absurd (cc);
  was_present = λ y h. absurd (cc);
}
