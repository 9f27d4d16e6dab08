-- ===== src/SecurityLabel.antt =====
-- postgresql_security_label (postgresql/resource_postgresql_security_label.go). The label's literal is
-- that of lib/pq's QuoteLiteral, a parameter.
pub mod Identifier
pub mod Atomic
use Prim.Native.String.{[], ◌∷◌}
use mathlib.Core.List.{[], ◌∷◌}
use yb_terraform_provider_po.Prelude.{
  String, Char, code, Bool, true, false, not, ◌&&◌, ◌||◌, leb, nat_eq, ◌<>◌, ◌==◌, if◌then◌else◌,
}
use yb_terraform_provider_po.Prelude.Result.{
  Result, ok, err, pure, fail, lift, context, ◌>>=◌, ◌>>◌,
}
use yb_terraform_provider_po.Strings.{join, to_lower}
use yb_terraform_provider_po.Postgres.{Pq, Value, Row, Server, row, no_rows, failed, scan_error}
use yb_terraform_provider_po.Features.{feature_supported, security_label, server}
use yb_terraform_provider_po.Features
use yb_terraform_provider_po.Terraform.{ResourceData, Setting}
use yb_terraform_provider_po.Transaction.{
  Connection, Txn, Handler, exec, query_row, set, set_id, autocommit, directly, starts,
  handler_set_id,
}

-- the classes of the regular expression ^[a-zA-Z_][a-zA-Z0-9_]*$
abbrev pub is_first : Char → Bool
is_first c =
    (leb b'a' (code c) && leb (code c) b'z')
    || ((leb b'A' (code c) && leb (code c) b'Z') || nat_eq (code c) b'_')

abbrev pub is_more : Char → Bool
is_more c = is_first c || (leb b'0' (code c) && leb (code c) b'9')

unfoldable pub all_more : String → Bool
all_more [] = true
all_more (c ∷ s) = is_more c && all_more s

-- re.MatchString(s)
unfoldable pub matches_name : String → Bool
matches_name [] = false
matches_name (c ∷ s) = is_first c && all_more s

-- generateSecurityLabelID, of the values of its three attributes
unfoldable pub generate_security_label_id : String → String → String → String
generate_security_label_id provider object_type object_name =
    join (provider ∷ object_type ∷ object_name ∷ []) "."

-- Scan(&objectType, &newProvider, &newObjectName, &label)
abbrev pub as_security_label : Row → Result (String × String × String × String)
as_security_label
      (Value.text object_type ∷ Value.text provider ∷ Value.text name ∷ Value.text label ∷ []) =
    ok (object_type, provider, name, label)
as_security_label _ = err scan_error

abbrev pub check_security_label_feature : String → Bool → Result (Unit {0})
check_security_label_feature title supported =
    if not supported then err (title <> " is not supported for this Postgres version") else ok tt

module _ ⦃pq : Pq⦄ where
  -- quoteIdentifier
  unfoldable pub quote_identifier : String → String
  quote_identifier s =
      if not (matches_name s) || not (s == to_lower s) then pq.quote_identifier s else s

  -- the statement of resourcePostgreSQLSecurityLabelUpdateImpl
  unfoldable pub security_label_sql : ResourceData → String → String
  security_label_sql d label =
      "SECURITY LABEL "
      <> " FOR "
      <> pq.quote_identifier (d.get_string "label_provider")
      <> " ON "
      <> d.get_string "object_type"
      <> pq.quote_identifier (d.get_string "object_name")
      <> " IS "
      <> label

  module _ ⦃db : Server⦄ where
    -- resourcePostgreSQLSecurityLabelUpdateImpl
    unfoldable pub security_label_update_impl : ResourceData → String → Handler (Unit {0})
    security_label_update_impl d label =
        context "could not create security label: "
          (autocommit (exec (security_label_sql d label) []))

    -- resourcePostgreSQLSecurityLabelReadImpl behind startTransaction; the query does not use the
    -- transaction
    unfoldable pub read_security_label : ResourceData → Txn (Unit {0})
    read_security_label d = do
      answer ←
          query_row as_security_label
            "SELECT objtype, provider, objname, label FROM pg_seclabels WHERE objtype = $1 and objname = $2 and provider = $3"
            (Value.text (d.get_string "object_type")
              ∷ Value.text (quote_identifier (d.get_string "object_name"))
              ∷ Value.text (quote_identifier (d.get_string "label_provider"))
              ∷ [])
      elim answer [
        | no_rows ↦ set_id ""
        | failed e ↦ fail ("Error reading security label: " <> e)
        | row (object_type, new_provider, new_name, label) ↦
            let changed =
              not (quote_identifier (d.get_string "object_name") == new_name)
              || not (quote_identifier (d.get_string "label_provider") == new_provider) in
            let name = if changed then new_name else d.get_string "object_name" in
            let provider = if changed then new_provider else d.get_string "label_provider" in
            (do
              set "object_type" (Setting.text object_type)
              set "object_name" (Setting.text name)
              set "label_provider" (Setting.text provider)
              set "label" (Setting.text label)
              set_id (generate_security_label_id provider object_type name))
      ]

    -- resourcePostgreSQLSecurityLabelReadImpl
    unfoldable pub security_label_read_impl : Connection → ResourceData → Handler (Unit {0})
    security_label_read_impl c d = do starts c.client ""; directly (read_security_label d)

    -- resourcePostgreSQLSecurityLabelRead
    unfoldable pub security_label_read : Connection → ResourceData → Handler (Unit {0})
    unfolding security_label_read_impl
    security_label_read c d = do
      lift (
          check_security_label_feature "Security Label"
            (feature_supported Features.security_label c.version))
      security_label_read_impl c d

    -- resourcePostgreSQLSecurityLabelDelete
    unfoldable pub security_label_delete : Connection → ResourceData → Handler (Unit {0})
    unfolding security_label_update_impl
    security_label_delete c d = do
      lift (
          check_security_label_feature "Security Label"
            (feature_supported Features.security_label c.version))
      security_label_update_impl d "NULL"
      handler_set_id ""

    module _ (quote_literal : String → String) where
      -- resourcePostgreSQLSecurityLabelCreate
      unfoldable pub security_label_create : Connection → ResourceData → Handler (Unit {0})
      unfolding security_label_update_impl security_label_read_impl
      security_label_create c d = do
        lift (
            check_security_label_feature "security Label"
              (feature_supported Features.security_label c.version))
        security_label_update_impl d (quote_literal (d.get_string "label"))
        handler_set_id (
            generate_security_label_id (d.get_string "label_provider") (d.get_string "object_type")
              (d.get_string "object_name"))
        security_label_read_impl c d

      -- resourcePostgreSQLSecurityLabelUpdate, which checks the feature of servers
      unfoldable pub security_label_update : Connection → ResourceData → Handler (Unit {0})
      unfolding security_label_update_impl security_label_read_impl
      security_label_update c d = do
        lift (
            check_security_label_feature "Security Label"
              (feature_supported Features.server c.version))
        security_label_update_impl d (quote_literal (d.get_string "label"))
        security_label_read_impl c d
