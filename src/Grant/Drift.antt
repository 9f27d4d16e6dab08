-- ===== src/Grant/Drift.antt =====
-- When reading a grant back reports a difference (readRolePrivileges).
use mathlib.Core.Path.{subst}
use yb_terraform_provider_po.Prelude.{
  String, Bool, true, false, List, [], ◌∷◌, map, is_empty, ◌||◌, ◌≡◌, ◌⊎◌, inl, inr, refl, arith,
  Bool-cases,
}
use yb_terraform_provider_po.Prelude.Result.{ok}
use yb_terraform_provider_po.Postgres.{Value, Row, Server}
use yb_terraform_provider_po.Terraform.{ResourceData, Setting}
use yb_terraform_provider_po.Slices.{slice_contains_str}
use yb_terraform_provider_po.Privileges.{resource_privileges_equal}
use yb_terraform_provider_po.Transaction.{Live, set}
use yb_terraform_provider_po.Grant.Read.{read_objects, is_skipped}

-- an object with the privileges that the role has on it
abbrev pub Granted : Type 0
Granted = String × List String

-- the row that the server answers for it
abbrev pub granted_row : Granted → Row
granted_row (name, privileges) = Value.text name ∷ Value.texts privileges ∷ []

abbrev pub Among : Granted → List Granted → Type 0
Among x [] = ⊥
Among x (y ∷ ys) = (x ≡ y) ⊎ Among x ys

-- the resource is about the object: it names it, or it names none
abbrev pub IsAbout : ResourceData → String → Type 0
IsAbout d name =
    (is_empty (d.get_list "objects") ≡ true)
    ⊎ (slice_contains_str (d.get_list "objects") name ≡ true)

-- the object has the privileges of the resource
abbrev pub IsInSync : ResourceData → List String → Type 0
IsInSync d privileges =
    resource_privileges_equal privileges (d.get_string "object_type") (d.get_list "privileges")
    ≡ true

abbrev pub Differs : ResourceData → List String → Type 0
Differs d privileges =
    resource_privileges_equal privileges (d.get_string "object_type") (d.get_list "privileges")
    ≡ false

-- the test by which the loop goes on behind an object
abbrev passed : ResourceData → String → List String → Bool
passed d name privileges =
    is_skipped (d.get_list "objects") name
    || resource_privileges_equal privileges (d.get_string "object_type") (d.get_list "privileges")

passed-IsInSync :
    (d : ResourceData) (x y : Granted)
    → x ≡ y
    → passed d y.0 y.1 ≡ true
    → IsAbout d x.0
    → IsInSync d x.1
passed-IsInSync d x y e b about =
    subst (λ z. passed d z.0 z.1 ≡ true → IsInSync d x.1) e (λ b'. ground arith) b

not_passed :
    (d : ResourceData) (name : String) (privileges : List String)
    → passed d name privileges ≡ false
    → IsAbout d name × Differs d privileges
not_passed d name privileges b = (
  elim (Bool-cases (is_empty (d.get_list "objects"))) [
    | inl e ↦ inl e
    | inr e ↦ inr (ground arith)
  ],
  ground arith,
)

module _ ⦃db : Server⦄ where
  -- Over the objects that the server answers with, reading back either leaves the state as it is, and
  -- then every object that the resource is about has the wanted privileges; or it sets the privileges
  -- to those of an object that the resource is about and that differs.
  pub read_objects_cases :
      (d : ResourceData) (objects : List Granted) (l : Live db.Session)
      → ((read_objects d (map granted_row objects) l ≡ (ok tt, l))
          × ((x : Granted) → Among x objects → IsAbout d x.0 → IsInSync d x.1))
        ⊎ ((x : Granted) × Among x objects
            × IsAbout d x.0
            × Differs d x.1
            × (read_objects d (map granted_row objects) l ≡ set "privileges" (Setting.texts x.1) l))
  unfolding read_objects
  read_objects_cases d [] l = inl (refl, λ x a. absurd a)
  read_objects_cases d ((name, privileges) ∷ objects) l =
      elim (Bool-cases (passed d name privileges)) [
        | inr b ↦ inr (
          (name, privileges),
          inl refl,
          (not_passed d name privileges b).0,
          (not_passed d name privileges b).1,
          rw b refl,
        )
        | inl b ↦ elim (read_objects_cases d objects l) [
          | inl (e, all) ↦ inl (
            rw b e,
            λ x a about. elim a [
              | inr a' ↦ all x a' about
              | inl p ↦ passed-IsInSync d x (name, privileges) p b about
            ],
          )
          | inr (x, a, about, differs, e) ↦ inr (x, inr a, about, differs, rw b e)
        ]
      ]
