-- ===== src/GoMap.antt =====
-- Go's maps with text keys, as lists of entries in which a key stands once. The order in which Go
-- iterates over a map is a parameter.
pub mod Laws
pub mod Entries
use mathlib.Core.List.{Perm}
use yb_terraform_provider_po.Prelude.{
  String, List, [], ◌∷◌, Option, none, some, ◌==◌, if◌then◌else◌,
}

module _ {A : Type 0} where
  -- m[key]
  unfoldable pub find : List (String × A) → String → Option A
  find [] key = none
  find ((k, a) ∷ m) key = let later = find m key in if k == key then some a else later

  -- m[key] = value
  unfoldable pub put : String → A → List (String × A) → List (String × A)
  put key a [] = (key, a) ∷ []
  put key a ((k, b) ∷ m) =
      let later = put key a m in if k == key then (k, a) ∷ m else (k, b) ∷ later

-- the order of an iteration: every entry once
pub record Iteration : Type 1 where
  pub order : {A : Type 0} → List (String × A) → List (String × A)
  pub order-Perm : {A : Type 0} (m : List (String × A)) → Perm (order m) m
