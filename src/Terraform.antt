-- ===== src/Terraform.antt =====
-- What the provider sees of the Terraform SDK's schema.ResourceData, which is not part of the
-- repository: the configured and the previous attributes are arbitrary functions of the attribute's
-- name, and the id and the `d.Set` calls are state. Where the code reads an attribute after it has
-- set it, the model takes the value that was set.
use yb_terraform_provider_po.Prelude.{String, Bool, List, [], ◌∷◌, ◌++◌}
use yb_terraform_provider_po.Prelude.Int.{ℤ}

-- the argument of a `d.Set`
pub data Setting : Type 0 where
  text : String → Setting
  bool : Bool → Setting
  int : ℤ → Setting
  texts : List String → Setting

pub record ResourceData : Type 0 where
  pub id : String
  -- d.Get(name), at the type that the attribute's schema has; a set is its List()
  pub get_string : String → String
  pub get_bool : String → Bool
  pub get_int : String → ℤ
  pub get_list : String → List String
  -- the second result of d.GetOk(name)
  pub get_ok : String → Bool
  pub has_change : String → Bool
  -- the first result of d.GetChange(name)
  pub old_string : String → String
  pub old_list : String → List String
  pub is_new_resource : Bool
  -- the d.Set calls, oldest first
  pub settings : List (String × Setting)

abbrev pub set_id : String → ResourceData → ResourceData
set_id i d = record d { id = i }

abbrev pub set : String → Setting → ResourceData → ResourceData
set name v d = record d { settings = d.settings ++ (name, v) ∷ [] }
