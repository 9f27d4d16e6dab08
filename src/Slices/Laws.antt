-- ===== src/Slices/Laws.antt =====
-- What the helpers on slices compute, in terms of membership and repetition.
use yb_terraform_provider_po.Prelude.{
  String, false, ◌||◌, ◌&&◌, not, List, [], ◌∷◌, ◌++◌, ◌==◌, eq_iff, ◌≡◌, refl, arith,
}
use yb_terraform_provider_po.Slices.{
  slice_contains_str, array_difference, first_repeated, is_unique_arr,
}
use yb_terraform_provider_po.Prelude.{none, ◌↔◌}

pub contains-append :
    (xs ys : List String) (s : String)
    → slice_contains_str (xs ++ ys) s ≡ (slice_contains_str xs s || slice_contains_str ys s)
unfolding slice_contains_str
contains-append [] ys s = refl
contains-append (x ∷ xs) ys s = ground (arith, contains-append xs ys s)

pub contains-concat :
    (xs : List String) (y s : String)
    → slice_contains_str (xs ++ y ∷ []) s ≡ (slice_contains_str xs s || y == s)
unfolding slice_contains_str
contains-concat [] y s = ground arith
contains-concat (x ∷ xs) y s = ground (arith, contains-concat xs y s)

-- An item is in the difference of two slices exactly when it is in the first and not in the second.
pub contains-array_difference :
    (a b : List String) (s : String)
    → slice_contains_str (array_difference a b) s
      ≡ (slice_contains_str a s && not (slice_contains_str b s))
unfolding array_difference
contains-array_difference [] b s = refl
contains-array_difference (x ∷ a) b s = ground (arith, eq_iff x s, contains-array_difference a b s)

-- No entry stands twice.
abbrev pub IsUnique : List String → Type 0
IsUnique [] = Unit
IsUnique (x ∷ xs) = (slice_contains_str xs x ≡ false) × IsUnique xs

-- none of the second list is in the first
abbrev pub IsFresh : List String → List String → Type 0
IsFresh keys [] = Unit
IsFresh keys (x ∷ xs) = (slice_contains_str keys x ≡ false) × IsFresh keys xs

IsFresh-cons :
    (key : String) (keys xs : List String)
    → IsFresh (key ∷ keys) xs ↔ (IsFresh keys xs × (slice_contains_str xs key ≡ false))
unfolding slice_contains_str
IsFresh-cons key keys [] = (λ h. (tt, refl), λ h. tt)
IsFresh-cons key keys (x ∷ xs) = (
  λ (h, hs).
      let (f, n) = (IsFresh-cons key keys xs).0 hs in
      ((ground arith, f), ground (arith, eq_iff key x, eq_iff x key)),
  λ ((h, f), n).
      (ground (arith, eq_iff key x, eq_iff x key), (IsFresh-cons key keys xs).1 (f, ground arith)),
)

first_repeated_iff :
    (keys arr : List String) → (first_repeated keys arr ≡ none) ↔ (IsUnique arr × IsFresh keys arr)
unfolding first_repeated
first_repeated_iff keys [] = (λ h. (tt, tt), λ h. refl)
first_repeated_iff keys (x ∷ xs) = (
  λ h.
      let (u, f) = (first_repeated_iff (x ∷ keys) xs).0 (ground arith) in
      let (k, n) = (IsFresh-cons x keys xs).0 f in ((n, u), (ground arith, k)),
  λ ((n, u), (k, f)).
      let rest = (first_repeated_iff (x ∷ keys) xs).1 (u, (IsFresh-cons x keys xs).1 (f, n)) in
      ground arith,
)

IsFresh-nil : (xs : List String) → IsFresh [] xs
unfolding slice_contains_str
IsFresh-nil [] = tt
IsFresh-nil (x ∷ xs) = (refl, IsFresh-nil xs)

-- isUniqueArr finds no repeated entry exactly when there is none.
pub is_unique_arr_iff : (arr : List String) → (is_unique_arr arr ≡ none) ↔ IsUnique arr
unfolding is_unique_arr
is_unique_arr_iff arr = (
  λ h. ((first_repeated_iff [] arr).0 h).0,
  λ u. (first_repeated_iff [] arr).1 (u, IsFresh-nil arr),
)
