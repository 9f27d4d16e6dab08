-- ===== src/Features.antt =====
-- What the server's version supports (postgresql/config.go: featureName, featureSupported). A version
-- is its three numbers; the ranges that the code parses by semver are written out.
use yb_terraform_provider_po.Prelude.{ℕ, Bool, not, ltb, leb, nat_eq, if◌then◌else◌}

pub record Version : Type 0 where
  pub major : ℕ
  pub minor : ℕ
  pub patch : ℕ

pub data Feature : Type 0 where
  create_role_with database_owner_role db_allow_connections db_is_template : Feature
  fallback_application_name rls schema_create_if_not_exist replication extension : Feature
  privileges procedure routine privileges_on_schemas force_drop_database pid : Feature
  publish_via_root pub_truncate publication pub_without_truncate function server : Feature
  create_role_self_grant security_label : Feature

-- the range ">=major.minor.0"
unfoldable pub at_least : ℕ → ℕ → Version → Bool
at_least major minor v = if nat_eq v.major major then leb minor v.minor else ltb major v.major

-- featureSupported, of a DBConnection at its version or of a Config at the expected version
unfoldable pub feature_supported : Feature → Version → Bool
unfolding at_least
feature_supported create_role_with v = at_least 8 1 v
feature_supported database_owner_role v = at_least 15 0 v
feature_supported db_allow_connections v = at_least 9 5 v
feature_supported db_is_template v = at_least 9 5 v
feature_supported fallback_application_name v = at_least 9 0 v
feature_supported rls v = at_least 9 5 v
feature_supported schema_create_if_not_exist v = at_least 9 3 v
feature_supported replication v = at_least 9 1 v
feature_supported extension v = at_least 9 1 v
feature_supported privileges v = at_least 9 0 v
feature_supported procedure v = at_least 11 0 v
feature_supported routine v = at_least 11 0 v
feature_supported privileges_on_schemas v = at_least 10 0 v
feature_supported force_drop_database v = at_least 13 0 v
feature_supported pid v = at_least 9 2 v
feature_supported publish_via_root v = at_least 13 0 v
feature_supported pub_truncate v = at_least 11 0 v
feature_supported publication v = at_least 10 0 v
feature_supported pub_without_truncate v = not (at_least 11 0 v)
feature_supported function v = at_least 8 4 v
feature_supported server v = at_least 10 0 v
feature_supported create_role_self_grant v = at_least 16 0 v
feature_supported security_label v = at_least 11 0 v
