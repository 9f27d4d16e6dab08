-- ===== src/GoMap/Entries.antt =====
-- Whether some entry of a map passes a test, whatever the order of the iteration.
use mathlib.Core.Bool.{Bool-set}
use mathlib.Core.List.{foldr}
use mathlib.Core.List.Perm.{foldr-eq}
use yb_terraform_provider_po.Prelude.{
  String, Bool, true, false, ◌||◌, List, [], ◌∷◌, some, ◌==◌, eq_iff, eq_refl, ◌≡◌, refl, arith,
  Bool-cases, inl, inr, ap,
}
use yb_terraform_provider_po.GoMap.{find, Iteration}
use yb_terraform_provider_po.GoMap.Laws.{IsMap}

module _ {A : Type 0} (f : String × A → Bool) where
  abbrev one_more : String × A → Bool → Bool
  one_more e b = f e || b

  abbrev pub has_entry : List (String × A) → Bool
  has_entry m = foldr one_more false m

  commute : (x y : String × A) (b : Bool) → one_more x (one_more y b) ≡ one_more y (one_more x b)
  commute x y b = ground arith

  pub has_entry-order :
      ⦃it : Iteration⦄ → (m : List (String × A)) → has_entry (it.order m) ≡ has_entry m
  has_entry-order ⦃it⦄ m = foldr-eq Bool-set one_more commute (it.order-Perm m) false

  pub find-has_entry :
      (m : List (String × A)) (k : String) (a : A)
      → find m k ≡ some a
      → f (k, a) ≡ true
      → has_entry m ≡ true
  unfolding find
  find-has_entry [] k a h t = absurd (cc)
  find-has_entry ((j, b) ∷ m) k a h t = elim (Bool-cases (j == k)) [
    | inl here ↦
        (let g = rw here at h in
          let e : j ≡ k = ground (arith, eq_iff j k) in
          let same : f (j, b) ≡ f (k, a) = cc in ground arith)
    | inr further ↦ (let later = find-has_entry m k a (rw further at h) t in ground arith)
  ]

  pub has_entry-cases :
      (m : List (String × A))
      → IsMap m
      → has_entry m ≡ true
      → (k : String) × (a : A) × (find m k ≡ some a) × (f (k, a) ≡ true)
  unfolding find
  has_entry-cases [] h e = absurd (cc)
  has_entry-cases ((j, b) ∷ m) (h, hs) e = elim (Bool-cases (f (j, b))) [
    | inl here ↦ (j, b, rw (eq_refl j) refl, here)
    | inr further ↦
        (let (k, a, p, t) = has_entry-cases m hs (ground arith) in
          (k, a, ground (arith, eq_iff j k, λ (e : j ≡ k). ap (λ x. find m x) e), t))
  ]
