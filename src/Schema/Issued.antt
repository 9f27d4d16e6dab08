-- ===== src/Schema/Issued.antt =====
-- Which statements setSchemaPolicy runs for the policies of a schema that change.
pub mod Keys
pub mod Iff
use yb_terraform_provider_po.Prelude.{
  String, Bool, true, false, not, ◌&&◌, ◌||◌, List, [], ◌∷◌, ◌++◌, Option, none, some, ◌==◌, eq_iff,
  ◌≡◌, ◌≢◌, ◌↔◌, ◌⊎◌, inl, inr, refl, sym, ap, ◌∙◌, arith, Bool-cases, if◌then◌else◌,
}
use yb_terraform_provider_po.Prelude.Result.{ok, bind-elim}
use yb_terraform_provider_po.Postgres.{Value, Server, Pq}
use yb_terraform_provider_po.Terraform.{ResourceData}
use yb_terraform_provider_po.Transaction.{Live, query_row}
use yb_terraform_provider_po.Slices.{slice_contains_str}
use yb_terraform_provider_po.Slices.Laws.{contains-append}
use yb_terraform_provider_po.Membership.Laws.{Answers}
use yb_terraform_provider_po.GoMap.{find, Iteration}
use yb_terraform_provider_po.GoMap.Laws.{IsMap}
use yb_terraform_provider_po.GoMap.Entries.{
  has_entry, has_entry-order, find-has_entry, has_entry-cases,
}
use yb_terraform_provider_po.Schema.{
  Policy, Both, Acl, same, only_in, in_both, lookup_map, deep_equal, schema_changed_policies,
  schema_policy_to_acl,
}
use yb_terraform_provider_po.Schema.Groups.{
  policy_of, left, find-only_in, find-in_both, lookup_map-IsMap, pair_of,
}
use yb_terraform_provider_po.Schema.Statements.{
  dropped_role, dropped_queries, added_queries, updated_queries, policy_queries,
}

abbrev Test : Type 0 → Type 0
Test A = String × A → Bool

module _ ⦃acl : Acl⦄ (exists : String → Bool) (name q : String) where
  revokes : Policy → Bool
  revokes p = slice_contains_str (acl.revokes (schema_policy_to_acl p) name) q

  grants : Policy → Bool
  grants p = slice_contains_str (acl.grants (schema_policy_to_acl p) name) q

  -- `q` is one of the statements for a role with these old and new policies: a policy that is dropped is
  -- revoked unless it is PUBLIC's or the role is gone, one that is added is granted, and of one that
  -- differs the old is revoked and the new granted
  abbrev pub IsIssued : Option Policy → Option Policy → Type 0
  IsIssued none none = ⊥
  IsIssued (some p) none =
      (p.role ≢ "")
      × (exists p.role ≡ true)
      × (slice_contains_str (acl.revokes (schema_policy_to_acl p) name) q ≡ true)
  IsIssued none (some r) = slice_contains_str (acl.grants (schema_policy_to_acl r) name) q ≡ true
  IsIssued (some p) (some r) =
      (deep_equal p r ≡ false)
      × ((slice_contains_str (acl.revokes (schema_policy_to_acl p) name) q ≡ true)
          ⊎ (slice_contains_str (acl.grants (schema_policy_to_acl r) name) q ≡ true))

  drops : Test Policy
  drops (k, p) = not (p.role == "") && (exists p.role && revokes p)

  adds : Test Policy
  adds (k, p) = grants p

  updates : Test Both
  updates (k, b) = revokes b.old || grants b.new

  contains-added_queries :
      (m : List (String × Policy)) → slice_contains_str (added_queries name m) q ≡ has_entry adds m
  unfolding added_queries adds grants slice_contains_str
  contains-added_queries [] = refl
  contains-added_queries ((k, p) ∷ m) =
      contains-append (acl.grants (schema_policy_to_acl p) name) (added_queries name m) q
      ∙ ap (λ b. grants p || b) (contains-added_queries m)

  contains-updated_queries :
      (m : List (String × Both))
      → slice_contains_str (updated_queries name m) q ≡ has_entry updates m
  unfolding updated_queries updates grants revokes slice_contains_str
  contains-updated_queries [] = refl
  contains-updated_queries ((k, b) ∷ m) =
      let r = acl.revokes (schema_policy_to_acl b.old) name in
      let g = acl.grants (schema_policy_to_acl b.new) name in
      let rest = updated_queries name m in
      ground (
        arith,
        contains-append r (g ++ rest) q,
        contains-append g rest q,
        contains-updated_queries m,
      )

  module _ ⦃db : Server⦄ where
    -- the lookup of a role answers by `exists`
    abbrev pub KnowsRoles : db.Session → Type 0
    KnowsRoles s =
        (role : String)
        → Answers
            (db.rows "SELECT TRUE FROM pg_catalog.pg_roles WHERE rolname = $1"
              (Value.text role ∷ []) s)
            (exists role)

    contains-dropped_role :
        (key : String) (p : Policy) (l l' : Live db.Session) (queries : List String)
        → KnowsRoles l.session
        → dropped_role name p l ≡ (ok queries, l')
        → (slice_contains_str queries q ≡ drops (key, p)) × (l' ≡ l)
    unfolding dropped_role drops revokes query_row slice_contains_str
    contains-dropped_role key p l l' queries known h = ground (arith, known p.role)

    contains-dropped_queries :
        (m : List (String × Policy)) (l l' : Live db.Session) (queries : List String)
        → KnowsRoles l.session
        → dropped_queries name m l ≡ (ok queries, l')
        → slice_contains_str queries q ≡ has_entry drops m
    unfolding dropped_queries slice_contains_str
    contains-dropped_queries [] l l' queries known h = let e : queries ≡ [] = cc in rw e refl
    contains-dropped_queries ((k, p) ∷ m) l l' queries known h =
        bind-elim (dropped_role name p) _ l l' queries h λ first l1 p1 q1.
          bind-elim (dropped_queries name m) _ l1 l' queries q1 λ rest l2 p2 q2.
            let (e, same) = contains-dropped_role k p l l1 first known p1 in
            let later =
              contains-dropped_queries m l l2 rest known
                (ap (λ s. dropped_queries name m s) (sym same) ∙ p2) in
            let all : queries ≡ first ++ rest = cc in
            rw all (ground (arith, contains-append first rest q))
