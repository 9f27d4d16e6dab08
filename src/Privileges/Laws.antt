-- ===== src/Privileges/Laws.antt =====
-- What validation accepts and when the granted privileges count as the wanted ones.
use yb_terraform_provider_po.Prelude.{
  String, Bool, true, not, ◌&&◌, ◌||◌, List, [], ◌∷◌, none, some, filter, ◌==◌, ◌≡◌, ◌≢◌, ◌↔◌, ◌⊎◌,
  inl, inr, refl, arith, eq_iff, Bool-cases, Option-cases, sym, ◌∙◌,
}
use yb_terraform_provider_po.Prelude.Result.{ok}
use yb_terraform_provider_po.Slices.{slice_contains_str}
use yb_terraform_provider_po.Privileges.{
  allowed_privileges, check_privileges, validate_privileges, contains_all, set_equal,
  resource_privileges_equal, listed,
}

-- an item that is in the list
abbrev pub Has : List String → String → Type 0
Has l s = slice_contains_str l s ≡ true

check_privileges-ok :
    (object_type : String) (allowed privileges : List String) (p : String)
    → check_privileges object_type allowed privileges ≡ ok tt
    → Has privileges p
    → Has allowed p
unfolding check_privileges
check_privileges-ok t allowed [] p h m = absurd (cc)
check_privileges-ok t allowed (q ∷ ps) p h m =
    ground (arith, eq_iff q p, check_privileges-ok t allowed ps p)

check_privileges-all :
    (object_type : String) (allowed privileges : List String)
    → ((p : String) → Has privileges p → Has allowed p)
    → check_privileges object_type allowed privileges ≡ ok tt
unfolding check_privileges
check_privileges-all t allowed [] h = refl
check_privileges-all t allowed (q ∷ ps) h = ground (
  arith,
  h q (ground (arith, eq_iff q q)),
  check_privileges-all t allowed ps (λ p m. h p (ground arith)),
)

validate_privileges_listed :
    (object_type : String) (allowed privileges : List String)
    → allowed_privileges object_type ≡ some allowed
    → validate_privileges object_type privileges ≡ check_privileges object_type allowed privileges
unfolding validate_privileges
validate_privileges_listed t allowed ps e = rw (e, validate_privileges)

validate_privileges_unknown :
    (object_type : String) (privileges : List String)
    → allowed_privileges object_type ≡ none
    → validate_privileges object_type privileges ≢ ok tt
unfolding validate_privileges
validate_privileges_unknown t ps e = rw (e, validate_privileges) (cc)

-- validatePrivileges accepts a list of privileges exactly when the type of object is in the table of
-- allowed privileges and each of the list is among those of that type.
pub validate_privileges_iff :
    (object_type : String) (privileges : List String)
    → (validate_privileges object_type privileges ≡ ok tt) ↔ (
        (allowed : List String) × (allowed_privileges object_type ≡ some allowed)
        × ((p : String) → Has privileges p → Has allowed p))
validate_privileges_iff t ps = (
  λ h. elim (Option-cases (allowed_privileges t)) [
    | inl missing ↦ absurd (validate_privileges_unknown t ps missing h)
    | inr (allowed, e) ↦ (
      allowed,
      e,
      λ p. check_privileges-ok t allowed ps p (sym (validate_privileges_listed t allowed ps e) ∙ h),
    )
  ],
  λ (allowed, e, h).
      validate_privileges_listed t allowed ps e ∙ check_privileges-all t allowed ps h,
)

contains_all-Has :
    (set xs : List String) (s : String) → contains_all set xs ≡ true → Has xs s → Has set s
unfolding slice_contains_str
contains_all-Has set [] s h m = absurd (cc)
contains_all-Has set (x ∷ xs) s h m = ground (arith, eq_iff x s, contains_all-Has set xs s)

contains_all_of_Has :
    (set xs : List String) → ((s : String) → Has xs s → Has set s) → contains_all set xs ≡ true
unfolding slice_contains_str
contains_all_of_Has set [] h = refl
contains_all_of_Has set (x ∷ xs) h = ground (
  arith,
  h x (ground (arith, eq_iff x x)),
  contains_all_of_Has set xs (λ s m. h s (ground arith)),
)

set_equal-both :
    (a b : List String)
    → set_equal a b ≡ true
    → (contains_all a b ≡ true) × (contains_all b a ≡ true)
unfolding set_equal
set_equal-both a b h = ground arith

-- two lists with the same items
abbrev pub SameItems : List String → List String → Type 0
SameItems a b = (s : String) → slice_contains_str a s ≡ slice_contains_str b s

pub set_equal-SameItems : (a b : List String) → set_equal a b ≡ true → SameItems a b
set_equal-SameItems a b h =
    λ s. ground (arith, contains_all-Has a b s, contains_all-Has b a s, set_equal-both a b h)

pub set_equal_of_SameItems : (a b : List String) → SameItems a b → set_equal a b ≡ true
unfolding set_equal
set_equal_of_SameItems a b h = ground (
  arith,
  contains_all_of_Has a b (λ s m. h s ∙ m),
  contains_all_of_Has b a (λ s m. sym (h s) ∙ m),
)

contains-filter :
    (p : String → Bool) (l : List String) (s : String)
    → slice_contains_str (filter p l) s ≡ (slice_contains_str l s && p s)
unfolding slice_contains_str
contains-filter p [] s = refl
contains-filter p (x ∷ l) s = ground (arith, eq_iff x s, contains-filter p l s)

-- The privileges of a type of object that "ALL" stands for.
abbrev pub implied : String → List String
implied object_type = filter (λ p. not (p == "ALL")) (listed (allowed_privileges object_type))

implied_iff :
    (object_type p : String)
    → Has (implied object_type) p ↔ (Has (listed (allowed_privileges object_type)) p × (p ≢ "ALL"))
implied_iff t p = (
  λ h. ground (
    arith,
    eq_iff p "ALL",
    contains-filter (λ p. not (p == "ALL")) (listed (allowed_privileges t)) p,
  ),
  λ (h, k). ground (
    arith,
    eq_iff p "ALL",
    contains-filter (λ p. not (p == "ALL")) (listed (allowed_privileges t)) p,
  ),
)

resource_privileges_equal_cases :
    (granted wanted : List String) (object_type : String)
    → resource_privileges_equal granted object_type wanted ≡ (
        set_equal granted wanted
        || (slice_contains_str wanted "ALL" && set_equal granted (implied object_type)))
unfolding resource_privileges_equal
resource_privileges_equal_cases granted wanted t = ground arith

-- What the code compares the granted privileges with when "ALL" is wanted: every privilege that the
-- type of object allows, but "ALL" itself.
abbrev pub IsAll : String → List String → Type 0
IsAll object_type granted =
    (p : String) → Has granted p ↔ (Has (listed (allowed_privileges object_type)) p × (p ≢ "ALL"))

IsAll-SameItems :
    (object_type : String) (granted : List String)
    → IsAll object_type granted ↔ SameItems granted (implied object_type)
IsAll-SameItems t granted = (
  λ all s. ground (arith, (all s).0, (all s).1, (implied_iff t s).0, (implied_iff t s).1),
  λ same s. (λ h. (implied_iff t s).0 (sym (same s) ∙ h), λ h. same s ∙ (implied_iff t s).1 h),
)

-- The granted privileges count as the wanted ones exactly when they are the same set, or "ALL" is
-- wanted and those granted are all the allowed ones but "ALL".
pub resource_privileges_equal_iff :
    (granted wanted : List String) (object_type : String)
    → (resource_privileges_equal granted object_type wanted ≡ true)
      ↔ (SameItems granted wanted ⊎ (Has wanted "ALL" × IsAll object_type granted))
resource_privileges_equal_iff granted wanted t = (
  λ h. elim (Bool-cases (set_equal granted wanted)) [
    | inl same ↦ inl (set_equal-SameItems granted wanted same)
    | inr other ↦
        let e = sym (resource_privileges_equal_cases granted wanted t) ∙ h in
        inr (
          ground arith,
          (IsAll-SameItems t granted).1 (set_equal-SameItems granted (implied t) (ground arith)),
        )
  ],
  λ c. resource_privileges_equal_cases granted wanted t ∙ elim c [
    | inl same ↦ ground (arith, set_equal_of_SameItems granted wanted same)
    | inr (all, parts) ↦
        ground
          (arith, set_equal_of_SameItems granted (implied t) ((IsAll-SameItems t granted).0 parts))
  ],
)
