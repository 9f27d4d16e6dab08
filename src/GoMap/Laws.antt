-- ===== src/GoMap/Laws.antt =====
-- Looking up a key behind an assignment, and in the entries of a map that a loop picks.
use yb_terraform_provider_po.Prelude.{
  String, List, [], ◌∷◌, none, some, ◌==◌, eq_iff, ◌≡◌, refl, arith, if◌then◌else◌, Bool-cases, inl,
  inr,
}
use yb_terraform_provider_po.GoMap.{find, put}

module _ {A : Type 0} where
  pub find-put :
      (key : String) (a : A) (m : List (String × A)) (k : String)
      → find (put key a m) k ≡ (if key == k then some a else find m k)
  unfolding find put
  find-put key a [] k = refl
  find-put key a ((j, b) ∷ m) k =
      ground (arith, find-put key a m k, eq_iff j key, eq_iff key k, eq_iff j k)

  -- no key stands twice
  abbrev pub IsMap : List (String × A) → Type 0
  IsMap [] = Unit
  IsMap ((k, a) ∷ m) = (find m k ≡ none) × IsMap m

  pub put-IsMap : (key : String) (a : A) (m : List (String × A)) → IsMap m → IsMap (put key a m)
  unfolding put find
  put-IsMap key a [] h = (refl, tt)
  put-IsMap key a ((k, b) ∷ m) (h, hs) = elim (Bool-cases (k == key)) [
    | inl e ↦ rw e (h, hs)
    | inr e ↦
        rw e (ground (arith, find-put key a m k, eq_iff key k, eq_iff k key), put-IsMap key a m hs)
  ]
