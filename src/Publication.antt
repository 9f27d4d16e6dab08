-- ===== src/Publication.antt =====
-- postgresql_publication (postgresql/resource_postgresql_publication.go): the id, the tables and the
-- parameters of a publication.
pub mod Setters
pub mod Read
pub mod Handlers
pub mod Tables
pub mod Atomic
pub mod Params
use yb_terraform_provider_po.Prelude.{
  String, Bool, true, false, not, List, [], ◌∷◌, ◌++◌, map, Option, none, some, is_empty, ◌<>◌,
  ◌==◌, if◌then◌else◌,
}
use yb_terraform_provider_po.Prelude.Result.{Result, ok, err, wrap}
use yb_terraform_provider_po.Strings.{join}
use yb_terraform_provider_po.Slices.{slice_contains_str, is_unique_arr}
use yb_terraform_provider_po.Postgres.{Pq}
use yb_terraform_provider_po.Quote.{quote_table_name}
use yb_terraform_provider_po.Features.{feature_supported, publication}
use yb_terraform_provider_po.Features
use yb_terraform_provider_po.Terraform.{ResourceData}
use yb_terraform_provider_po.Transaction.{Connection, Client}
use yb_terraform_provider_po.Qualified.{qualified_id, parse_id}

-- getDatabaseForPublication
unfoldable pub get_database_for_publication : ResourceData → String → String
get_database_for_publication d database_name =
    if d.get_ok "database" then d.get_string "database" else database_name

-- generatePublicationID
unfoldable pub generate_publication_id : ResourceData → String → String
unfolding qualified_id
generate_publication_id d database_name = qualified_id database_name (d.get_string "name")

-- getDBPublicationName, where the resource's id is the second argument
unfoldable pub get_db_publication_name : ResourceData → String → Client → Result (String × String)
unfolding parse_id get_database_for_publication
get_db_publication_name d id client =
    if d.get_string "name" == ""
    then elim (parse_id id) [
      | none ↦
          err
            ("Publication ID " <> id <> " has not the expected format 'database.publication_name'")
      | some names ↦ ok names
    ]
    else ok (get_database_for_publication d client.database_name, d.get_string "name")

-- the check at the head of the handlers
unfoldable pub check_publication_feature : Connection → Result (Unit {0})
check_publication_feature c =
    if not (feature_supported Features.publication c.version)
    then err "postgresql_publication resource is not supported for this Postgres version"
    else ok tt

-- the error for a duplicate
abbrev pub duplicated : String → String
duplicated elem = "'" <> elem <> "' is duplicated for attribute `tables`"

-- getTablesForPublication
unfoldable pub get_tables_for_publication : ⦃pq : Pq⦄ → ResourceData → Result String
get_tables_for_publication d =
    let tables = d.get_list "tables" in
    if d.get_ok "tables"
    then elim (is_unique_arr tables) [
      | some elem ↦ err (duplicated elem)
      | none ↦ ok ("FOR TABLE " <> join (map quote_table_name tables) ", ")
    ]
    else if d.get_ok "all_tables"
    then ok (if d.get_bool "all_tables" then "FOR ALL TABLES" else "")
    else ok ""

abbrev pub publish_values : List String
publish_values = "insert" ∷ "update" ∷ "delete" ∷ "truncate" ∷ []

-- the loop of validatedPublicationPublishParams
unfoldable pub check_publish_params : List String → List String → Result (List String)
unfolding slice_contains_str join
check_publish_params [] attrs = ok attrs
check_publish_params (attr ∷ params) attrs =
    if not (slice_contains_str publish_values attr)
    then err (
        "invalid value of `publish_param`: "
        <> attr
        <> ". Should be at least one of '"
        <> join publish_values ", "
        <> "'")
    else check_publish_params params (attrs ++ attr ∷ [])

-- validatedPublicationPublishParams
unfoldable pub validated_publication_publish_params : List String → Result (List String)
validated_publication_publish_params params = elim (is_unique_arr params) [
  | some elem ↦ err (duplicated elem)
  | none ↦ check_publish_params params []
]

-- the entry of pubParams for publish_via_partition_root, where the attribute is given
unfoldable pub via_root_param : Bool → Bool → Bool → Result (List String)
via_root_param given enabled value =
    if not given
    then ok []
    else if not enabled
    then err
        "publish_via_partition_root attribute is supported only for postgres version 13 and above"
    else ok (("publish_via_partition_root = " <> (if value then "true" else "false")) ∷ [])

-- the entry of pubParams for publish
unfoldable pub publish_param : Bool → List String → Result (List String)
publish_param given values =
    if not given then ok [] else elim (validated_publication_publish_params values) [
      | err e ↦ err e
      | ok params ↦ ok (("publish = '" <> join params ", " <> "'") ∷ [])
    ]

-- Whether the attributes count as given: in a new resource by GetOk, in another by HasChange.
abbrev pub is_given : ResourceData → String → Bool
is_given d name = if d.is_new_resource then d.get_ok name else d.has_change name

-- the entries of pubParams in the order of the iteration over the map, which puts either first
unfoldable pub publication_params : Bool → ResourceData → Bool → Result (List String)
publication_params root_first d enabled =
    let root =
      via_root_param (is_given d "publish_via_partition_root_param") enabled
        (d.get_bool "publish_via_partition_root_param") in
    let publish = publish_param (is_given d "publish_param") (d.get_list "publish_param") in
    elim root [
      | err e ↦ err e
      | ok r ↦ elim publish [ err e ↦ err e | ok p ↦ ok (if root_first then r ++ p else p ++ r) ]
    ]

-- the text of the entries, for a new resource or for another
unfoldable pub params_text : Bool → List String → String
unfolding join
params_text is_new params =
    let template : String = if is_new then "WITH (" else "SET (" in
    if is_empty params then "" else template <> join params "," <> ")"

-- getPublicationParameters
unfoldable pub get_publication_parameters : Bool → ResourceData → Bool → Result String
get_publication_parameters root_first d enabled = elim (publication_params root_first d enabled) [
  | err e ↦ err e
  | ok params ↦ ok (params_text d.is_new_resource params)
]
