-- ===== src/Privileges.antt =====
-- Privileges of object types (postgresql/helpers.go: allowedPrivileges, validatePrivileges,
-- resourcePrivilegesEqual). A schema.Set of strings is a list; two sets are equal if each has the
-- other's items.
pub mod Laws
use yb_terraform_provider_po.Prelude.{
  String, Bool, true, false, not, ◌&&◌, ◌||◌, List, [], ◌∷◌, Option, none, some, filter, ◌<>◌, ◌==◌,
  if◌then◌else◌,
}
use yb_terraform_provider_po.Prelude.Result.{Result, ok, err}
use yb_terraform_provider_po.Slices.{slice_contains_str}

-- allowedPrivileges, `none` for a key that is not in the map
unfoldable pub allowed_privileges : String → Option (List String)
allowed_privileges t =
    if t == "database"
    then some ("ALL" ∷ "CREATE" ∷ "CONNECT" ∷ "TEMPORARY" ∷ [])
    else if t == "table"
    then some (
        "ALL" ∷ "SELECT" ∷ "INSERT" ∷ "UPDATE" ∷ "DELETE" ∷ "TRUNCATE" ∷ "REFERENCES" ∷ "TRIGGER"
        ∷ [])
    else if t == "sequence"
    then some ("ALL" ∷ "USAGE" ∷ "SELECT" ∷ "UPDATE" ∷ [])
    else if t == "schema"
    then some ("ALL" ∷ "CREATE" ∷ "USAGE" ∷ [])
    else if t == "function" || (t == "procedure" || t == "routine")
    then some ("ALL" ∷ "EXECUTE" ∷ [])
    else if t == "type" || (t == "foreign_data_wrapper" || t == "foreign_server")
    then some ("ALL" ∷ "USAGE" ∷ [])
    else if t == "column"
    then some ("ALL" ∷ "SELECT" ∷ "INSERT" ∷ "UPDATE" ∷ "REFERENCES" ∷ [])
    else none

-- the loop of validatePrivileges
unfoldable pub check_privileges : String → List String → List String → Result (Unit {0})
unfolding slice_contains_str
check_privileges object_type allowed [] = ok tt
check_privileges object_type allowed (priv ∷ privileges) =
    if not (slice_contains_str allowed priv)
    then err (priv <> " is not an allowed privilege for object type " <> object_type)
    else check_privileges object_type allowed privileges

unfoldable pub validate_privileges : String → List String → Result (Unit {0})
unfolding check_privileges
validate_privileges object_type privileges = elim (allowed_privileges object_type) [
  | none ↦ err ("unknown object type " <> object_type)
  | some allowed ↦ check_privileges object_type allowed privileges
]

-- Set.Equal
abbrev pub contains_all : List String → List String → Bool
contains_all set [] = true
contains_all set (x ∷ xs) = slice_contains_str set x && contains_all set xs

unfoldable pub set_equal : List String → List String → Bool
unfolding slice_contains_str
set_equal a b = contains_all a b && contains_all b a

abbrev listed : Option (List String) → List String
listed none = []
listed (some l) = l

-- resourcePrivilegesEqual
unfoldable pub resource_privileges_equal : List String → String → List String → Bool
unfolding set_equal slice_contains_str
resource_privileges_equal granted object_type wanted =
    if set_equal granted wanted
    then true
    else if not (slice_contains_str wanted "ALL")
    then false
    else set_equal granted
        (filter (λ p. not (p == "ALL")) (listed (allowed_privileges object_type)))
