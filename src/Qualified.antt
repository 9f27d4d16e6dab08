-- ===== src/Qualified.antt =====
-- Ids of the form `database.name` (postgresql/helpers.go: getDatabase; the ends of
-- getDBSchemaName and getDBPublicationName, which split an id in the same way).
pub mod Laws
pub mod Imported
use yb_terraform_provider_po.Prelude.{String, List, [], ◌∷◌, Option, none, some, if◌then◌else◌}
use yb_terraform_provider_po.Strings.{split, join}
use yb_terraform_provider_po.Terraform.{ResourceData}

-- getDatabase
unfoldable pub get_database : ResourceData → String → String
get_database d database_name =
    if d.get_ok "database" then d.get_string "database" else database_name

-- an id that is joined by a dot
unfoldable pub qualified_id : String → String → String
unfolding join
qualified_id database name = join (database ∷ name ∷ []) "."

-- two parts, and no more
abbrev pub two_parts : List String → Option (String × String)
two_parts (a ∷ b ∷ []) = some (a, b)
two_parts _ = none

unfoldable pub parse_id : String → Option (String × String)
unfolding split
parse_id id = two_parts (split id ".")
