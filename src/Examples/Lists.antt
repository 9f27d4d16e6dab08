-- ===== src/Examples/Lists.antt =====
-- Privileges and slices at concrete inputs.
use yb_terraform_provider_po.Prelude.{
  String, true, not, ◌&&◌, List, [], ◌∷◌, ◌≡◌, ◌↔◌, ◌⊎◌, some, none,
}
use yb_terraform_provider_po.Prelude.Result.{ok}
use yb_terraform_provider_po.Slices.{slice_contains_str, array_difference, is_unique_arr}
use yb_terraform_provider_po.Slices.Laws.{contains-array_difference, IsUnique, is_unique_arr_iff}
use yb_terraform_provider_po.Privileges.{
  allowed_privileges, validate_privileges, resource_privileges_equal,
}
use yb_terraform_provider_po.Privileges.Laws.{
  Has, SameItems, IsAll, validate_privileges_iff, resource_privileges_equal_iff,
}

contains-array_difference_example :
    slice_contains_str (array_difference ("a" ∷ "b" ∷ []) ("b" ∷ [])) "a"
    ≡ (slice_contains_str ("a" ∷ "b" ∷ []) "a" && not (slice_contains_str ("b" ∷ []) "a"))
contains-array_difference_example = contains-array_difference ("a" ∷ "b" ∷ []) ("b" ∷ []) "a"

validate_privileges_iff_example : (validate_privileges "schema" ("USAGE" ∷ []) ≡ ok tt) ↔ (
    (allowed : List String) × (allowed_privileges "schema" ≡ some allowed)
    × ((p : String) → Has ("USAGE" ∷ []) p → Has allowed p))
validate_privileges_iff_example = validate_privileges_iff "schema" ("USAGE" ∷ [])

resource_privileges_equal_iff_example :
    (resource_privileges_equal ("USAGE" ∷ "CREATE" ∷ []) "schema" ("ALL" ∷ []) ≡ true) ↔ (
      SameItems ("USAGE" ∷ "CREATE" ∷ []) ("ALL" ∷ [])
      ⊎ (Has ("ALL" ∷ []) "ALL" × IsAll "schema" ("USAGE" ∷ "CREATE" ∷ [])))
resource_privileges_equal_iff_example =
    resource_privileges_equal_iff ("USAGE" ∷ "CREATE" ∷ []) ("ALL" ∷ []) "schema"

is_unique_arr_iff_example : (is_unique_arr ("a" ∷ "b" ∷ []) ≡ none) ↔ IsUnique ("a" ∷ "b" ∷ [])
is_unique_arr_iff_example = is_unique_arr_iff ("a" ∷ "b" ∷ [])
