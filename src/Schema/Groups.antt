-- ===== src/Schema/Groups.antt =====
-- schemaChangedPolicies sorts the roles of two lists of policies into four groups.
use yb_terraform_provider_po.Prelude.{
  String, Bool, true, false, not, List, [], ◌∷◌, Option, none, some, ◌==◌, eq_iff, ◌≡◌, refl, arith,
  if◌then◌else◌, ap, ◌∙◌,
}
use yb_terraform_provider_po.GoMap.{find, put}
use yb_terraform_provider_po.GoMap.Laws.{find-put, IsMap, put-IsMap}
use yb_terraform_provider_po.Strings.{to_lower}
use yb_terraform_provider_po.Schema.{
  Policy, Both, Changes, lookup_map, deep_equal, only_in, in_both, same, schema_changed_policies,
}

-- the last policy in the list for a role, where the case of letters does not count
abbrev pub policy_of : List Policy → String → Option Policy
policy_of [] key = none
policy_of (p ∷ policies) key = elim (policy_of policies key) [
  | some q ↦ some q
  | none ↦ if to_lower p.role == key then some p else none
]

abbrev pub or_else : Option Policy → Option Policy → Option Policy
or_else (some q) other = some q
or_else none other = other

find-lookup_map :
    (policies : List Policy) (m : List (String × Policy)) (key : String)
    → find (lookup_map policies m) key ≡ or_else (policy_of policies key) (find m key)
unfolding lookup_map
find-lookup_map [] m key = refl
find-lookup_map (p ∷ policies) m key = ground (
  arith,
  find-lookup_map policies (put (to_lower p.role) p m) key,
  find-put (to_lower p.role) p m key,
)

-- what is left of the first policy where there is no second
abbrev pub left : Option Policy → Option Policy → Option Policy
left o none = o
left o (some q) = none

pub find-only_in :
    (m other : List (String × Policy)) (key : String)
    → find (only_in m other) key ≡ left (find m key) (find other key)
unfolding find only_in
find-only_in [] other key = ground arith
find-only_in ((k, p) ∷ m) other key = ground (arith, find-only_in m other key, eq_iff k key)

-- what in_both keeps of a role
abbrev pub pair_of : Bool → Option Policy → Option Policy → Option Both
pair_of equal (some p) (some q) =
    if same equal (deep_equal p q) then some (record { old = p; new = q }) else none
pair_of equal _ _ = none

pair_of-none : (equal : Bool) (o : Option Policy) → pair_of equal o none ≡ none
pair_of-none equal none = refl
pair_of-none equal (some p) = refl

pub find-in_both :
    (equal : Bool) (m new : List (String × Policy)) (key : String)
    → IsMap m
    → find (in_both equal m new) key ≡ pair_of equal (find m key) (find new key)
unfolding find in_both
find-in_both equal [] new key h = refl
find-in_both equal ((k, p) ∷ m) new key (h, hs) = ground (
  arith,
  find-in_both equal m new key hs,
  eq_iff k key,
  pair_of-none equal (find m key),
  λ (e : k ≡ key). ap (λ x. find new x) e,
  λ (e : k ≡ key). ap (λ x. find m x) e,
)

pub lookup_map-IsMap :
    (policies : List Policy) (m : List (String × Policy)) → IsMap m → IsMap (lookup_map policies m)
unfolding lookup_map
lookup_map-IsMap [] m h = h
lookup_map-IsMap (p ∷ policies) m h =
    lookup_map-IsMap policies (put (to_lower p.role) p m) (put-IsMap (to_lower p.role) p m h)

find_map :
    (policies : List Policy) (key : String)
    → find (lookup_map policies []) key ≡ policy_of policies key
unfolding find
find_map policies key = find-lookup_map policies [] key ∙ or_none (policy_of policies key)
  where
    or_none : (o : Option Policy) → or_else o none ≡ o
    or_none none = refl
    or_none (some p) = refl

-- where a role's policy ends up, by its old and its new policy
abbrev pub IsSorted : Option Policy → Option Policy → Changes → String → Type 0
IsSorted none none c key =
    (find c.dropped key ≡ none)
    × (find c.added key ≡ none)
    × (find c.updated key ≡ none)
    × (find c.unchanged key ≡ none)
IsSorted (some p) none c key =
    (find c.dropped key ≡ some p)
    × (find c.added key ≡ none)
    × (find c.updated key ≡ none)
    × (find c.unchanged key ≡ none)
IsSorted none (some q) c key =
    (find c.dropped key ≡ none)
    × (find c.added key ≡ some q)
    × (find c.updated key ≡ none)
    × (find c.unchanged key ≡ none)
IsSorted (some p) (some q) c key =
    let both : Option Both = some (record { old = p; new = q }) in
    (find c.dropped key ≡ none)
    × (find c.added key ≡ none)
    × (find c.updated key ≡ (if deep_equal p q then none else both))
    × (find c.unchanged key ≡ (if deep_equal p q then both else none))

negated : {A : Type 0} (b : Bool) (x y : A) → (if not b then x else y) ≡ (if b then y else x)
negated true x y = refl
negated false x y = refl

groups-IsSorted :
    (o n : Option Policy) (c : Changes) (key : String)
    → find c.dropped key ≡ left o n
    → find c.added key ≡ left n o
    → find c.updated key ≡ pair_of false o n
    → find c.unchanged key ≡ pair_of true o n
    → IsSorted o n c key
groups-IsSorted none none c key d a u e = (d, a, u, e)
groups-IsSorted none (some q) c key d a u e = (d, a, u, e)
groups-IsSorted (some p) none c key d a u e = (d, a, u, e)
groups-IsSorted (some p) (some q) c key d a u e = (d, a, u ∙ negated (deep_equal p q) _ _, e)

-- what is found in the four maps, by the old and the new policy of a role
abbrev pub AreFound : Option Policy → Option Policy → Changes → String → Type 0
AreFound o n c key =
    (find c.dropped key ≡ left o n)
    × (find c.added key ≡ left n o)
    × (find c.updated key ≡ pair_of false o n)
    × (find c.unchanged key ≡ pair_of true o n)

pub schema_changed_policies-AreFound :
    (old new : List Policy) (key : String)
    → AreFound (policy_of old key) (policy_of new key) (schema_changed_policies old new) key
unfolding schema_changed_policies
schema_changed_policies-AreFound old new key =
    let old_map = lookup_map old [] in
    let new_map = lookup_map new [] in
    let keys = lookup_map-IsMap old [] tt in
    (
      find-only_in old_map new_map key ∙ rw (find_map old key, find_map new key) refl,
      find-only_in new_map old_map key ∙ rw (find_map old key, find_map new key) refl,
      find-in_both false old_map new_map key keys ∙ rw (find_map old key, find_map new key) refl,
      find-in_both true old_map new_map key keys ∙ rw (find_map old key, find_map new key) refl,
    )

-- For every role, where the case of letters does not count and, as the code has it and the
-- documentation of policies does not, the last policy of a role is the one that counts: schemaChangedPolicies reports it as dropped where only the old list has it, as added
-- where only the new list has it, as updated where both have it with different policies and as
-- unchanged where they are equal, with the policies, and nowhere else.
pub schema_changed_policies-IsSorted :
    (old new : List Policy) (key : String)
    → IsSorted (policy_of old key) (policy_of new key) (schema_changed_policies old new) key
schema_changed_policies-IsSorted old new key =
    let (d, a, u, e) = schema_changed_policies-AreFound old new key in
    groups-IsSorted (policy_of old key) (policy_of new key) (schema_changed_policies old new) key d
      a u e
