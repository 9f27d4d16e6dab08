-- ===== src/Schema/Issued/Iff.antt =====
-- The statements of setSchemaPolicy are those that the change of each role calls for.
use yb_terraform_provider_po.Prelude.{
  String, Bool, true, false, ◌||◌, List, [], ◌++◌, Option, none, some, eq_iff, ◌≡◌, ◌↔◌, inl, inr,
  refl, sym, ◌∙◌, arith, Bool-cases,
}
use yb_terraform_provider_po.Prelude.Result.{ok, bind-elim}
use yb_terraform_provider_po.Postgres.{Server, Pq}
use yb_terraform_provider_po.Terraform.{ResourceData}
use yb_terraform_provider_po.Transaction.{Live}
use yb_terraform_provider_po.Slices.{slice_contains_str}
use yb_terraform_provider_po.Slices.Laws.{contains-append}
use yb_terraform_provider_po.GoMap.{find, Iteration}
use yb_terraform_provider_po.GoMap.Entries.{
  has_entry, has_entry-order, find-has_entry, has_entry-cases,
}
use yb_terraform_provider_po.Schema.{
  Policy, Both, Changes, Acl, lookup_map, deep_equal, schema_changed_policies,
}
use yb_terraform_provider_po.Schema.Groups.{
  policy_of, left, schema_changed_policies-AreFound, lookup_map-IsMap, pair_of,
}
use yb_terraform_provider_po.Schema.Statements.{
  dropped_queries, added_queries, updated_queries, policy_queries,
}
use yb_terraform_provider_po.Schema.Issued.Keys.{only_in-IsMap, in_both-IsMap}
use yb_terraform_provider_po.Schema.Issued.{
  IsIssued, drops, adds, updates, revokes, grants, KnowsRoles, contains-dropped_queries,
  contains-added_queries, contains-updated_queries,
}

module _ ⦃acl : Acl⦄ (exists : String → Bool) (name q : String) where
  drops-IsIssued :
      (key : String) (p : Policy) (o n : Option Policy)
      → left o n ≡ some p
      → drops exists name q (key, p) ≡ true
      → IsIssued exists name q o n
  unfolding drops revokes
  drops-IsIssued key p none none e h = absurd (cc)
  drops-IsIssued key p none (some r) e h = absurd (cc)
  drops-IsIssued key p (some o) (some r) e h = absurd (cc)
  drops-IsIssued key p (some o) none e h =
      let same : o ≡ p = cc in rw same (ground (arith, eq_iff p.role ""))

  adds-IsIssued :
      (key : String) (p : Policy) (o n : Option Policy)
      → left n o ≡ some p
      → adds exists name q (key, p) ≡ true
      → IsIssued exists name q o n
  unfolding adds grants
  adds-IsIssued key p none none e h = absurd (cc)
  adds-IsIssued key p (some o) none e h = absurd (cc)
  adds-IsIssued key p (some o) (some r) e h = absurd (cc)
  adds-IsIssued key p none (some r) e h = let same : r ≡ p = cc in rw same h

  updates-IsIssued :
      (key : String) (b : Both) (o n : Option Policy)
      → pair_of false o n ≡ some b
      → updates exists name q (key, b) ≡ true
      → IsIssued exists name q o n
  unfolding updates grants revokes
  updates-IsIssued key b none n e h = absurd (cc)
  updates-IsIssued key b (some o) none e h = absurd (cc)
  updates-IsIssued key b (some o) (some r) e h = elim (Bool-cases (deep_equal o r)) [
    | inl equal ↦ (let g = rw equal at e in absurd (cc))
    | inr differs ↦
        (let g = rw differs at e in
          let whole : b ≡ record { old = o; new = r } = cc in
          let h' = rw whole at h in (differs, ground arith))
  ]

  -- and the other way round: what is issued for a role is in one of the three groups
  issued-entry :
      (key : String) (dropped added : List (String × Policy)) (updated : List (String × Both))
      (o n : Option Policy)
      → find dropped key ≡ left o n
      → find added key ≡ left n o
      → find updated key ≡ pair_of false o n
      → IsIssued exists name q o n
      → (has_entry (drops exists name q) dropped
          || (has_entry (adds exists name q) added || has_entry (updates exists name q) updated))
        ≡ true
  unfolding drops adds updates grants revokes
  issued-entry key dropped added updated none none d a u h = absurd h
  issued-entry key dropped added updated (some p) none d a u (h, k, r) =
      let there =
        find-has_entry (drops exists name q) dropped key p d (ground (arith, eq_iff p.role "")) in
      ground arith
  issued-entry key dropped added updated none (some r) d a u h =
      let there = find-has_entry (adds exists name q) added key r a h in ground arith
  issued-entry key dropped added updated (some p) (some r) d a u (differs, h) =
      let there =
        find-has_entry (updates exists name q) updated key (record { old = p; new = r })
          (u ∙ rw differs refl) (ground (arith, h)) in
      ground arith

  module _ ⦃db : Server⦄ ⦃pq : Pq⦄ ⦃it : Iteration⦄ where
    contains-policy_queries :
        (d : ResourceData) (old new : List Policy) (l l' : Live db.Session) (queries : List String)
        → d.get_string "name" ≡ name
        → KnowsRoles exists name q l.session
        → policy_queries d old new l ≡ (ok queries, l')
        → slice_contains_str queries q ≡ (
            has_entry (drops exists name q) (schema_changed_policies old new).dropped
            || (has_entry (adds exists name q) (schema_changed_policies old new).added
                || has_entry (updates exists name q) (schema_changed_policies old new).updated))
    unfolding policy_queries
    contains-policy_queries d old new l l' queries named known h =
        let changes = schema_changed_policies old new in
        let grant = added_queries name (it.order changes.added) in
        let change = updated_queries name (it.order changes.updated) in
        let h' = rw named at h in
        bind-elim (dropped_queries name (it.order changes.dropped)) _ l l' queries h'
          λ dropped l1 p1 q1.
            let e₁ =
              contains-dropped_queries exists name q (it.order changes.dropped) l l1 dropped known
                p1 in
            let all : queries ≡ dropped ++ (grant ++ change) = cc in
            rw all (
              contains-append dropped (grant ++ change) q
              ∙ rw
                  (
                    contains-append grant change q,
                    e₁ ∙ has_entry-order (drops exists name q) changes.dropped,
                    contains-added_queries exists name q (it.order changes.added)
                        ∙ has_entry-order (adds exists name q) changes.added,
                    contains-updated_queries exists name q (it.order changes.updated)
                        ∙ has_entry-order (updates exists name q) changes.updated,
                  )
                  refl)

module _ ⦃acl : Acl⦄ where
  module _ ⦃db : Server⦄ ⦃pq : Pq⦄ ⦃it : Iteration⦄ where
    -- Where the lookups of roles answer and the statements of setSchemaPolicy can be put together, for
    -- any old and new policies and every order of iteration: a text is one of them exactly when, for
    -- some role (the case of its letters does not count, and its last policy is the one that counts), it
    -- is a REVOKE of a policy that is dropped, where the role is not PUBLIC and still exists, a GRANT of
    -- one that is added, or a REVOKE of the old or a GRANT of the new policy where the two differ.
    pub policy_queries_iff :
        (d : ResourceData) (old new : List Policy) (exists : String → Bool) (l l' : Live db.Session)
        (queries : List String) (q : String)
        → KnowsRoles exists (d.get_string "name") q l.session
        → policy_queries d old new l ≡ (ok queries, l')
        → (slice_contains_str queries q ≡ true) ↔ (
            (key : String) × IsIssued exists
              (d.get_string "name")
              q
              (policy_of old key)
              (policy_of new key))
    unfolding schema_changed_policies
    policy_queries_iff d old new exists l l' queries q known h = (to, from)
      where
        n : String
        n = d.get_string "name"

        c : Changes
        c = schema_changed_policies old new

        Issued : Type 0
        Issued = (key : String) × IsIssued exists n q (policy_of old key) (policy_of new key)

        all : slice_contains_str queries q ≡ (
            has_entry (drops exists n q) c.dropped
            || (has_entry (adds exists n q) c.added || has_entry (updates exists n q) c.updated))
        all = contains-policy_queries exists n q d old new l l' queries refl known h

        to_dropped : has_entry (drops exists n q) c.dropped ≡ true → Issued
        to_dropped e =
            let keys = only_in-IsMap _ (lookup_map new []) (lookup_map-IsMap old [] tt) in
            let (key, p, f, t) = has_entry-cases (drops exists n q) c.dropped keys e in
            let (in_dropped, _, _, _) = schema_changed_policies-AreFound old new key in
            (key, drops-IsIssued exists n q key p _ _ (sym in_dropped ∙ f) t)

        to_added : has_entry (adds exists n q) c.added ≡ true → Issued
        to_added e =
            let keys = only_in-IsMap _ (lookup_map old []) (lookup_map-IsMap new [] tt) in
            let (key, p, f, t) = has_entry-cases (adds exists n q) c.added keys e in
            let (_, in_added, _, _) = schema_changed_policies-AreFound old new key in
            (key, adds-IsIssued exists n q key p _ _ (sym in_added ∙ f) t)

        to_updated : has_entry (updates exists n q) c.updated ≡ true → Issued
        to_updated e =
            let keys = in_both-IsMap false _ (lookup_map new []) (lookup_map-IsMap old [] tt) in
            let (key, b, f, t) = has_entry-cases (updates exists n q) c.updated keys e in
            let (_, _, in_updated, _) = schema_changed_policies-AreFound old new key in
            (key, updates-IsIssued exists n q key b _ _ (sym in_updated ∙ f) t)

        to : slice_contains_str queries q ≡ true → Issued
        to e = elim (Bool-cases (has_entry (drops exists n q) c.dropped)) [
          | inl d ↦ to_dropped d
          | inr d ↦ elim (Bool-cases (has_entry (adds exists n q) c.added)) [
            | inl a ↦ to_added a
            | inr a ↦ to_updated (ground (arith, all))
          ]
        ]

        from : Issued → slice_contains_str queries q ≡ true
        from (key, issued) =
            let (d, a, u, _) = schema_changed_policies-AreFound old new key in
            all ∙ issued-entry exists n q key c.dropped c.added c.updated _ _ d a u issued
