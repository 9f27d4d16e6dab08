-- ===== src/DefaultPrivileges/Report.antt =====
-- What Terraform sees of default privileges that have been read back (readRoleDefaultPrivileges).
use yb_terraform_provider_po.Prelude.{
  ℕ, String, true, false, List, [], ◌∷◌, not, ◌<>◌, ◌&&◌, is_empty, ◌==◌, ◌≡◌, ◌≢◌, ◌⊎◌, inl, inr,
  refl, arith, eq_iff, Bool-cases, if◌then◌else◌,
}
use yb_terraform_provider_po.Prelude.Result.{ok, bind-elim}
use yb_terraform_provider_po.Postgres.{Value, Server, Scan, as_texts, as_oid, scan_with, first_row}
use yb_terraform_provider_po.Terraform.{ResourceData, Setting}
use yb_terraform_provider_po.Transaction.{Live, set, set_id, query_row}
use yb_terraform_provider_po.Transaction.Keeps.{Keeps-settled}
use yb_terraform_provider_po.Catalog.{
  pg_lock_role, get_role_oid, required, no_rows_error, public_role,
}
use yb_terraform_provider_po.Catalog.Keeps.{pg_lock_role-Keeps, get_role_oid-Keeps, required-eq-ok}
use yb_terraform_provider_po.Privileges.{resource_privileges_equal}
use yb_terraform_provider_po.Privileges.Laws.{set_equal_of_SameItems}
use yb_terraform_provider_po.DefaultPrivileges.{generate_default_privileges_id}
use yb_terraform_provider_po.DefaultPrivileges.Read.{
  report_privileges, read_role_default_privileges, default_query, query_args,
}

-- the privileges that the resource data shows: the last that were set, or the configured ones
abbrev pub shown : List String → List (String × Setting) → List String
shown wanted [] = wanted
shown wanted ((name, Setting.texts l) ∷ settings) =
    if name == "privileges" then shown l settings else shown wanted settings
shown wanted (_ ∷ settings) = shown wanted settings

-- the resource is gone, where the server has none of the wanted privileges, or it is there and shows
-- privileges that count as equal to those of the server
abbrev pub IsReported : ResourceData → List String → ResourceData → Type 0
IsReported d granted r =
    ((granted ≡ []) × (d.get_list "privileges" ≢ []) × (r.id ≡ ""))
    ⊎ ((r.id ≡ generate_default_privileges_id d)
        × (resource_privileges_equal granted (d.get_string "object_type")
              (shown (d.get_list "privileges") r.settings)
            ≡ true))

equal_refl : (t : String) (l : List String) → resource_privileges_equal l t l ≡ true
unfolding resource_privileges_equal
equal_refl t l = rw (set_equal_of_SameItems l l (λ s. refl)) refl

empty_cases :
    (granted wanted : List String)
    → (is_empty granted && not (is_empty wanted)) ≡ true
    → (granted ≡ []) × (wanted ≢ [])
empty_cases [] [] h = absurd (cc)
empty_cases [] (w ∷ ws) h = (refl, λ e. absurd (cc))
empty_cases (g ∷ gs) wanted h = absurd (cc)

module _ ⦃db : Server⦄ where
  report_equal :
      (d : ResourceData) (granted : List String) (l l' : Live db.Session)
      → l.resource.settings ≡ []
      → (is_empty granted && not (is_empty (d.get_list "privileges"))) ≡ false
      → report_privileges d granted l ≡ (ok tt, l')
      → IsReported d granted l'.resource
  unfolding report_privileges set set_id
  report_equal d granted l l' fresh e h =
      elim (Bool-cases (
        resource_privileges_equal granted (d.get_string "object_type") (d.get_list "privileges"))) [
          | inl b ↦
              (let g = rw (e, b) at h in
                let k : l'.resource.settings ≡ [] = ground arith in inr (ground arith, rw k b))
          | inr b ↦
              (let g = rw (e, b) at h in
                let k : l'.resource.settings ≡ ("privileges", Setting.texts granted) ∷ [] =
                  ground arith in
                inr (ground arith, rw k (equal_refl _ granted)))
        ]

  report_privileges-IsReported :
      (d : ResourceData) (granted : List String) (l l' : Live db.Session)
      → l.resource.settings ≡ []
      → report_privileges d granted l ≡ (ok tt, l')
      → IsReported d granted l'.resource
  unfolding report_privileges set set_id
  report_privileges-IsReported d granted l l' fresh h =
      let wanted = d.get_list "privileges" in
      elim (Bool-cases (is_empty granted && not (is_empty wanted))) [
        | inl e ↦ let (a, b) = empty_cases granted wanted e in inl (a, b, (let g = rw e at h in cc))
        | inr e ↦ report_equal d granted l l' fresh e h
      ]

  -- `oid` is what the server knows the role by: 0 for everyone, and its row in pg_roles otherwise
  abbrev pub IsOidOf : String → ℕ → db.Session → Type 0
  IsOidOf role oid s =
      ((role ≡ "public") × (oid ≡ 0))
      ⊎ ((role ≢ "public")
          × (scan_with as_oid (
                first_row
                  (db.rows "SELECT oid FROM pg_roles WHERE rolname = $1" (Value.text role ∷ []) s))
              ≡ Scan.row oid))

  get_role_oid-IsOidOf :
      (role : String) (l l' : Live db.Session) (oid : ℕ)
      → get_role_oid role l ≡ (ok oid, l')
      → IsOidOf role oid l.session × (l' ≡ l)
  unfolding get_role_oid query_row
  get_role_oid-IsOidOf role l l' oid h = elim (Bool-cases (role == public_role)) [
    | inl everyone ↦
        (let g = rw everyone at h in (inl (ground (arith, eq_iff role "public"), cc), cc))
    | inr named ↦
        bind-elim
          (query_row as_oid "SELECT oid FROM pg_roles WHERE rolname = $1" (Value.text role ∷ [])) _
          l l' oid (rw named at h)
          λ answer k p q.
            let message : String = "could not find oid for role " <> role <> ": " in
            let (e, f) = required-eq-ok (message <> no_rows_error) message answer k l' oid q in
            (inr (ground (arith, eq_iff role "public"), cc), cc)
  ]

  -- Reading default privileges back, where it succeeds and nothing has been set before: behind the lock
  -- on the owner, the server has answered the query with some privileges for the oid of the role; if they are none although some are wanted, the id is empty,
  -- and otherwise the id is the generated one and the privileges that Terraform is shown count as equal
  -- to the server's.
  pub read_role_default_privileges-IsReported :
      (d : ResourceData) (l l' : Live db.Session)
      → l.resource.settings ≡ []
      → read_role_default_privileges d l ≡ (ok tt, l')
      → (granted : List String) × (role_oid : ℕ) × (locked : Live db.Session) × (pg_lock_role
            (d.get_string "owner")
            l
          ≡ (ok tt, locked))
        × IsOidOf (d.get_string "role") role_oid locked.session
        × (scan_with as_texts
              (first_row (db.rows (default_query d) (query_args d role_oid) locked.session))
            ≡ Scan.row granted)
        × IsReported d granted l'.resource
  unfolding read_role_default_privileges query_row
  read_role_default_privileges-IsReported d l l' fresh h =
      let owner = d.get_string "owner" in
      let role = d.get_string "role" in
      let message : String = "could not read default privileges: " in
      bind-elim (pg_lock_role owner) _ l l' tt h λ _ l1 p1 q1.
        bind-elim (get_role_oid role) _ l1 l' tt q1 λ role_oid l2 p2 q2.
          bind-elim (query_row as_texts (default_query d) (query_args d role_oid)) _ l2 l' tt q2
            λ answer l3 p3 q3.
              bind-elim (required (message <> no_rows_error) message answer) _ l3 l' tt q3
                λ granted l4 p4 q4.
                  let (e, f) =
                    required-eq-ok (message <> no_rows_error) message answer l3 l4 granted p4 in
                  let k1 = Keeps-settled (pg_lock_role owner) l l1 (pg_lock_role-Keeps owner) p1 in
                  let k2 = Keeps-settled (get_role_oid role) l1 l2 (get_role_oid-Keeps role) p2 in
                  let k : l4.resource.settings ≡ [] = cc in
                  let (known, same) = get_role_oid-IsOidOf role l1 l2 role_oid p2 in
                  (
                    granted,
                    role_oid,
                    l1,
                    cc,
                    known,
                    cc,
                    report_privileges-IsReported d granted l4 l' k q4,
                  )
