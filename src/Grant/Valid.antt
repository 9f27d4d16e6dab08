-- ===== src/Grant/Valid.antt =====
-- Which grants resourcePostgreSQLGrantCreateOrUpdate accepts.
use yb_terraform_provider_po.Prelude.{
  String, Bool, true, List, [], ◌∷◌, length, is_empty, ◌==◌, ◌≡◌, ◌≢◌, ◌↔◌, ◌⊎◌, arith, eq_iff,
  some, ◌&&◌, ◌||◌, not, sym, ◌∙◌, refl,
}
use yb_terraform_provider_po.Prelude.Result.{ok}
use yb_terraform_provider_po.Terraform.{ResourceData}
use yb_terraform_provider_po.Privileges.{allowed_privileges, validate_privileges}
use yb_terraform_provider_po.Privileges.Laws.{Has, validate_privileges_iff}
use yb_terraform_provider_po.Grant.Query.{has_no_schema}
use yb_terraform_provider_po.Grant.Apply.{validate_parameters, is_foreign, is_one}

-- What the code wants a grant on objects of type `t` to look like, which the documentation of
-- postgresql_grant tells differently for columns and for foreign objects: the schema is named unless the type has none,
-- objects are named where there can be some, exactly the grants on columns name columns, and those
-- name one privilege and one table.
pub record IsShaped (t schema : String) (objects columns privileges : List String) : Type 0 where
  pub schema_named : (schema ≢ "") ⊎ (has_no_schema t ≡ true)
  pub no_objects : (t ≡ "database") ⊎ (t ≡ "schema") → objects ≡ []
  pub columns_named : (columns ≢ []) ↔ (t ≡ "column")
  pub one_privilege : t ≡ "column" → length privileges ≡ 1
  pub one_table : t ≡ "column" → length objects ≡ 1
  pub one_object : (t ≡ "foreign_data_wrapper") ⊎ (t ≡ "foreign_server") → length objects ≡ 1

abbrev pub IsValid : ResourceData → Type 0
IsValid d =
    IsShaped (d.get_string "object_type") (d.get_string "schema") (d.get_list "objects")
      (d.get_list "columns") (d.get_list "privileges")
    × (allowed : List String) × (allowed_privileges (d.get_string "object_type") ≡ some allowed)
    × ((p : String) → Has (d.get_list "privileges") p → Has allowed p)

-- the tests of validate_parameters, all passed
unfoldable passes : String → String → List String → List String → List String → Bool
passes t schema objects columns privileges =
    not (schema == "" && not (has_no_schema t))
    && (not (not (is_empty objects) && (t == "database" || t == "schema"))
        && (not (not (is_empty columns) && not (t == "column"))
            && (not (is_empty columns && t == "column")
                && (not (not (is_one privileges) && t == "column")
                    && (not (not (is_one objects) && t == "column")
                        && not (not (is_one objects) && is_foreign t))))))

is_empty_iff : (l : List String) → (is_empty l ≡ true) ↔ (l ≡ [])
is_empty_iff [] = (λ e. refl, λ e. refl)
is_empty_iff (x ∷ xs) = (λ e. absurd (cc), λ e. absurd (cc))

passes_iff :
    (t schema : String) (objects columns privileges : List String)
    → (passes t schema objects columns privileges ≡ true)
      ↔ IsShaped t schema objects columns privileges
unfolding passes
passes_iff t schema objects columns privileges = (to, from)
  where
    to :
        passes t schema objects columns privileges ≡ true
        → IsShaped t schema objects columns privileges
    to h = record {
      schema_named = ground (arith, eq_iff schema "");
      no_objects =
          λ e. ground (arith, eq_iff t "database", eq_iff t "schema", is_empty_iff objects);
      columns_named = (
        λ e. ground (arith, eq_iff t "column", is_empty_iff columns),
        λ e n. ground (arith, eq_iff t "column", is_empty_iff columns),
      );
      one_privilege = λ e. ground (arith, eq_iff t "column");
      one_table = λ e. ground (arith, eq_iff t "column");
      one_object = λ e. ground (arith, eq_iff t "foreign_data_wrapper", eq_iff t "foreign_server");
    }

    from :
        IsShaped t schema objects columns privileges
        → passes t schema objects columns privileges ≡ true
    from p = ground (
      arith,
      p.schema_named,
      p.no_objects,
      p.columns_named,
      p.one_privilege,
      p.one_table,
      p.one_object,
      eq_iff schema "",
      eq_iff t "database",
      eq_iff t "schema",
      eq_iff t "column",
      eq_iff t "foreign_data_wrapper",
      eq_iff t "foreign_server",
      is_empty_iff objects,
      is_empty_iff columns,
    )

passes-validate_parameters :
    (d : ResourceData)
    → passes
        (d.get_string "object_type")
        (d.get_string "schema")
        (d.get_list "objects")
        (d.get_list "columns")
        (d.get_list "privileges")
      ≡ true
    → validate_parameters d
      ≡ validate_privileges (d.get_string "object_type") (d.get_list "privileges")
unfolding passes validate_parameters
passes-validate_parameters d h = ground arith

validate_parameters-passes :
    (d : ResourceData)
    → validate_parameters d ≡ ok tt
    → passes
        (d.get_string "object_type")
        (d.get_string "schema")
        (d.get_list "objects")
        (d.get_list "columns")
        (d.get_list "privileges")
      ≡ true
unfolding passes validate_parameters
validate_parameters-passes d h = ground arith

-- The checks of the parameters pass exactly for a grant of the right shape whose privileges are all
-- allowed for its type of object, which the provider knows.
pub validate_parameters_iff : (d : ResourceData) → (validate_parameters d ≡ ok tt) ↔ IsValid d
validate_parameters_iff d = (to, from)
  where
    to : validate_parameters d ≡ ok tt → IsValid d
    to h =
        let p = validate_parameters-passes d h in
        let (allowed, e, f) =
          (validate_privileges_iff (d.get_string "object_type") (d.get_list "privileges")).0
            (sym (passes-validate_parameters d p) ∙ h) in
        ((passes_iff _ _ _ _ _).0 p, allowed, e, f)

    from : IsValid d → validate_parameters d ≡ ok tt
    from (shape, allowed, e, f) =
        passes-validate_parameters d ((passes_iff _ _ _ _ _).1 shape)
        ∙ (validate_privileges_iff (d.get_string "object_type") (d.get_list "privileges")).1
            (allowed, e, f)
