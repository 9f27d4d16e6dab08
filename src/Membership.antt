-- ===== src/Membership.antt =====
-- Role memberships, and the temporary ones around an operation (postgresql/helpers.go:
-- isMemberOfRole, grantRoleMembership, revokeRoleMembership, withRolesGranted).
pub mod Laws
pub mod Restored
pub mod Track
pub mod Ready
use yb_terraform_provider_po.Prelude.{
  String, Bool, true, false, List, [], ◌∷◌, ◌++◌, ◌<>◌, ◌==◌, if◌then◌else◌,
}
use yb_terraform_provider_po.Prelude.Result.{pure, fail, context, for_each, ◌>>=◌, ◌>>◌}
use yb_terraform_provider_po.Postgres.{Value, Pq, Server, as_any}
use yb_terraform_provider_po.Transaction.{Txn, exec, query_row}
use yb_terraform_provider_po.Catalog.{row_exists, role_exists, get_current_user, is_superuser}

abbrev pub set_option_query : String
set_option_query =
    "SELECT 1 FROM information_schema.columns WHERE table_name='pg_auth_members' AND column_name = 'set_option'"

abbrev pub member_query : Bool → String
member_query set_option =
    "SELECT 1 FROM pg_auth_members WHERE pg_get_userbyid(roleid) = $1 AND pg_get_userbyid(member) = $2"
    <> (if set_option then " AND set_option" else "")

-- the roles granted and revoked so far in the loop of withRolesGranted
pub record Changed : Type 0 where
  pub granted : List String
  pub revoked : List String

module _ ⦃pq : Pq⦄ where
  abbrev pub grant_sql : String → String → String
  grant_sql role member =
      "GRANT " <> pq.quote_identifier role <> " TO " <> pq.quote_identifier member

  abbrev pub revoke_sql : String → String → String
  revoke_sql role member =
      "REVOKE " <> pq.quote_identifier role <> " FROM " <> pq.quote_identifier member

module _ ⦃db : Server⦄ where
  unfoldable pub is_member_of_role : String → String → Txn Bool
  is_member_of_role role member = do
    set_option ← row_exists "could not read setOption column: " set_option_query []
    row_exists "could not read role membership: " (member_query set_option)
        (Value.text role ∷ Value.text member ∷ [])

  module _ ⦃pq : Pq⦄ where
    unfoldable pub grant_role_membership : String → String → Txn Bool
    grant_role_membership role member = if member == role then pure false else (do
      is_member ← is_member_of_role role member
      if is_member then pure false else (do
        context ("Error granting role " <> role <> " to " <> member <> ": ")
            (exec (grant_sql role member) [])
        pure true))

    unfoldable pub revoke_role_membership : String → String → Txn Bool
    revoke_role_membership role member = if member == role then pure false else (do
      is_member ← is_member_of_role role member
      if is_member
          then (do
            context ("Error revoking role " <> role <> " from " <> member <> ": ")
                (exec (revoke_sql role member) [])
            pure true)
          else pure false)

    -- one round of the loop over `roles`
    unfoldable pub prepare_role : String → String → Changed → Txn Changed
    prepare_role current_user role changed = do
      superuser ← is_superuser role
      if superuser then pure changed else (do
        revoked ← revoke_role_membership current_user role
        granted ← grant_role_membership role current_user
        pure (record {
          granted = if granted then changed.granted ++ role ∷ [] else changed.granted;
          revoked = if revoked then changed.revoked ++ role ∷ [] else changed.revoked;
        }))

    unfoldable pub prepare_roles : String → List String → Changed → Txn Changed
    prepare_roles current_user [] changed = pure changed
    prepare_roles current_user (role ∷ roles) changed = do
      changed' ← prepare_role current_user role changed
      prepare_roles current_user roles changed'

    -- one round of the loop that grants back
    unfoldable pub grant_back : String → String → Txn (Unit {0})
    grant_back current_user role = do
      exists ← role_exists role
      if exists then (do grant_role_membership current_user role; pure tt) else pure tt

    unfoldable pub revoke_granted : String → String → Txn (Unit {0})
    revoke_granted current_user role = do revoke_role_membership role current_user; pure tt

    -- the part of withRolesGranted for a connected user who is no superuser
    unfoldable pub around : String → List String → Txn (Unit {0}) → Txn (Unit {0})
    around current_user roles fn = do
      changed ← prepare_roles current_user roles (record { granted = []; revoked = [] })
      fn
      for_each changed.granted (revoke_granted current_user)
      for_each changed.revoked (grant_back current_user)

    unfoldable pub with_roles_granted : List String → Txn (Unit {0}) → Txn (Unit {0})
    with_roles_granted [] fn = fn
    with_roles_granted (role ∷ roles) fn = do
      current_user ← get_current_user
      superuser ← is_superuser current_user
      if superuser then fn else around current_user (role ∷ roles) fn
