-- ===== src/Schema/Issued/Keys.antt =====
-- In the maps of schemaChangedPolicies no key stands twice.
use yb_terraform_provider_po.Prelude.{
  String, Bool, true, false, List, [], ◌∷◌, Option, none, some, ◌≡◌, refl, ◌∙◌, if◌then◌else◌,
}
use yb_terraform_provider_po.GoMap.{find}
use yb_terraform_provider_po.GoMap.Laws.{IsMap}
use yb_terraform_provider_po.Schema.{Policy, Both, same, only_in, in_both, deep_equal}
use yb_terraform_provider_po.Schema.Groups.{left, find-only_in, find-in_both, pair_of}

left-none : (o n : Option Policy) → o ≡ none → left o n ≡ none
left-none none none h = refl
left-none none (some q) h = refl
left-none (some p) n h = absurd (cc)

pub only_in-IsMap : (m other : List (String × Policy)) → IsMap m → IsMap (only_in m other)
unfolding only_in
only_in-IsMap [] other h = tt
only_in-IsMap ((k, p) ∷ m) other (h, hs) = go (find other k) (only_in-IsMap m other hs)
  where
    go :
        (o : Option Policy)
        → IsMap (only_in m other)
        → IsMap (elim o as (λ x. List (String × Policy)) [
          | none ↦ (k, p) ∷ only_in m other
          | some _ ↦ only_in m other
        ])
    go none later = (find-only_in m other k ∙ left-none (find m k) (find other k) h, later)
    go (some q) later = later

pair_of-first : (equal : Bool) (o n : Option Policy) → o ≡ none → pair_of equal o n ≡ none
pair_of-first equal none n h = refl
pair_of-first equal (some p) n h = absurd (cc)

pub in_both-IsMap :
    (equal : Bool) (m new : List (String × Policy)) → IsMap m → IsMap (in_both equal m new)
unfolding in_both
in_both-IsMap equal [] new h = tt
in_both-IsMap equal ((k, p) ∷ m) new (h, hs) = go (find new k) (in_both-IsMap equal m new hs)
  where
    fresh : find (in_both equal m new) k ≡ none
    fresh = find-in_both equal m new k hs ∙ pair_of-first equal (find m k) (find new k) h

    kept :
        (b : Bool) (both : Both)
        → IsMap (in_both equal m new)
        → IsMap (if b then (k, both) ∷ in_both equal m new else in_both equal m new)
    kept true both later = (fresh, later)
    kept false both later = later

    go :
        (o : Option Policy)
        → IsMap (in_both equal m new)
        → IsMap (elim o as (λ x. List (String × Both)) [
          | none ↦ in_both equal m new
          | some q ↦
              if same equal (deep_equal p q)
              then (k, record { old = p; new = q }) ∷ in_both equal m new
              else in_both equal m new
        ])
    go none later = later
    go (some q) later = kept (same equal (deep_equal p q)) (record { old = p; new = q }) later
