-- ===== src/Grant/Query.antt =====
-- The statements of postgresql_grant (postgresql/resource_postgresql_grant.go: createGrantQuery,
-- createRevokeQuery, generateGrantID). An index out of range is the error of the panic that it is.
use yb_terraform_provider_po.Prelude.{
  String, Bool, ◌||◌, List, [], ◌∷◌, ◌++◌, is_empty, ◌<>◌, ◌==◌, if◌then◌else◌,
}
use yb_terraform_provider_po.Prelude.Result.{Result, ok, err}
use yb_terraform_provider_po.Strings.{to_upper, join}
use yb_terraform_provider_po.Postgres.{Pq}
use yb_terraform_provider_po.Terraform.{ResourceData}
use yb_terraform_provider_po.Quote.{
  set_to_pg_ident_list, set_to_pg_ident_list_without_schema, set_to_pg_ident_simple_list,
}

-- ResourceSchemeGetter: what the revoke query reads, at the current or at the previous configuration
pub record Getter : Type 0 where
  pub string : String → String
  pub list : String → List String

abbrev pub current : ResourceData → Getter
current d = record { string = d.get_string; list = d.get_list }

-- the getter of revokeRolePrivileges under usePrevious
abbrev pub previous : ResourceData → Getter
previous d = record {
  string = λ name. if d.has_change name then d.old_string name else d.get_string name;
  list = λ name. if d.has_change name then d.old_list name else d.get_list name;
}

abbrev pub out_of_range : String
out_of_range = "runtime error: index out of range [0] with length 0"

-- `List()[0]`
abbrev pub first : List String → Result String
first [] = err out_of_range
first (x ∷ xs) = ok x

abbrev pub map_ok : (String → String) → Result String → Result String
map_ok f (ok s) = ok (f s)
map_ok f (err e) = err e

abbrev pub is_relation : String → Bool
is_relation kind =
    kind == "TABLE"
    || (kind == "SEQUENCE" || (kind == "FUNCTION" || (kind == "PROCEDURE" || kind == "ROUTINE")))

module _ ⦃pq : Pq⦄ where
  -- the switch of createGrantQuery, on the type of object in upper case
  unfoldable pub grant_statement : ResourceData → List String → String → Result String
  grant_statement d privileges kind =
      let what = "GRANT " <> join privileges "," in
      let to = " TO " <> pq.quote_identifier (d.get_string "role") in
      let objects = d.get_list "objects" in
      if kind == "DATABASE"
      then ok (what <> " ON DATABASE " <> pq.quote_identifier (d.get_string "database") <> to)
      else if kind == "SCHEMA"
      then ok (what <> " ON SCHEMA " <> pq.quote_identifier (d.get_string "schema") <> to)
      else if kind == "FOREIGN_DATA_WRAPPER"
      then map_ok (λ name. what <> " ON FOREIGN DATA WRAPPER " <> pq.quote_identifier name <> to)
          (first objects)
      else if kind == "FOREIGN_SERVER"
      then map_ok (λ name. what <> " ON FOREIGN SERVER " <> pq.quote_identifier name <> to)
          (first objects)
      else if kind == "COLUMN"
      then ok (
          what
          <> " ("
          <> set_to_pg_ident_list_without_schema (d.get_list "columns")
          <> ") ON TABLE "
          <> set_to_pg_ident_list (d.get_string "schema") objects
          <> to)
      else if is_relation kind
      then (if is_empty objects
          then ok (
              what
              <> " ON ALL "
              <> kind
              <> "S IN SCHEMA "
              <> pq.quote_identifier (d.get_string "schema")
              <> to)
          else ok (
              what
              <> " ON "
              <> kind
              <> " "
              <> set_to_pg_ident_list (d.get_string "schema") objects
              <> to))
      else ok ""

  -- createGrantQuery
  unfoldable pub create_grant_query : ResourceData → List String → Result String
  unfolding grant_statement
  create_grant_query d privileges =
      map_ok
        (λ query. if d.get_bool "with_grant_option" then query <> " WITH GRANT OPTION" else query)
        (grant_statement d privileges (to_upper (d.get_string "object_type")))

  -- the switch of createRevokeQuery
  unfoldable pub revoke_statement : Getter → String → Result String
  revoke_statement g kind =
      let from = " FROM " <> pq.quote_identifier (g.string "role") in
      let objects = g.list "objects" in
      let columns = g.list "columns" in
      let privileges = g.list "privileges" in
      if kind == "DATABASE"
      then ok (
          "REVOKE ALL PRIVILEGES ON DATABASE " <> pq.quote_identifier (g.string "database") <> from)
      else if kind == "SCHEMA"
      then ok
          ("REVOKE ALL PRIVILEGES ON SCHEMA " <> pq.quote_identifier (g.string "schema") <> from)
      else if kind == "FOREIGN_DATA_WRAPPER"
      then map_ok
          (λ name.
            "REVOKE ALL PRIVILEGES ON FOREIGN DATA WRAPPER " <> pq.quote_identifier name <> from)
          (first objects)
      else if kind == "FOREIGN_SERVER"
      then map_ok
          (λ name. "REVOKE ALL PRIVILEGES ON FOREIGN SERVER " <> pq.quote_identifier name <> from)
          (first objects)
      else if kind == "COLUMN"
      then (if is_empty privileges || is_empty columns
          then ok "SELECT NULL"
          else ok (
              "REVOKE "
              <> set_to_pg_ident_simple_list privileges
              <> " ("
              <> set_to_pg_ident_list_without_schema columns
              <> ") ON TABLE "
              <> set_to_pg_ident_list (g.string "schema") objects
              <> from))
      else if is_relation kind
      then (if is_empty objects
          then ok (
              "REVOKE ALL PRIVILEGES ON ALL "
              <> kind
              <> "S IN SCHEMA "
              <> pq.quote_identifier (g.string "schema")
              <> from)
          else if is_empty privileges
          then ok (
              "REVOKE ALL PRIVILEGES ON "
              <> kind
              <> " "
              <> set_to_pg_ident_list (g.string "schema") objects
              <> from)
          else ok (
              "REVOKE "
              <> set_to_pg_ident_simple_list privileges
              <> " ON "
              <> kind
              <> " "
              <> set_to_pg_ident_list (g.string "schema") objects
              <> from))
      else ok ""

  -- createRevokeQuery
  unfoldable pub create_revoke_query : Getter → Result String
  unfolding revoke_statement
  create_revoke_query g = revoke_statement g (to_upper (g.string "object_type"))

-- the types of object that have no schema
abbrev pub has_no_schema : String → Bool
has_no_schema t = t == "database" || (t == "foreign_data_wrapper" || t == "foreign_server")

-- generateGrantID
unfoldable pub generate_grant_id : ResourceData → String
generate_grant_id d =
    let object_type = d.get_string "object_type" in
    let schema : List String =
      if has_no_schema object_type then [] else d.get_string "schema" ∷ [] in
    join
      (d.get_string "role"
        ∷ d.get_string "database"
        ∷ (schema ++ (object_type ∷ (d.get_list "objects" ++ d.get_list "columns"))))
      "_"
