-- ===== src/Grant/Exists.antt =====
-- When a grant still has its database, role and schema (checkRoleDBSchemaExists).
use yb_terraform_provider_po.Prelude.{
  String, Bool, ◌&&◌, ◌||◌, [], ◌∷◌, ◌==◌, ◌≡◌, true, arith, Bool-cases, inl, inr,
}
use yb_terraform_provider_po.Prelude.Result.{ok, bind-elim}
use yb_terraform_provider_po.Postgres.{Value, Server}
use yb_terraform_provider_po.Terraform.{ResourceData}
use yb_terraform_provider_po.Transaction.{
  Live, Machine, Connection, start_transaction, directly, rolled_back,
}
use yb_terraform_provider_po.Catalog.{
  db_exists, role_exists, schema_exists, public_role, row_exists,
}
use yb_terraform_provider_po.Membership.Laws.{Answers}
use yb_terraform_provider_po.Grant.Query.{has_no_schema}
use yb_terraform_provider_po.Grant.Apply.{role_and_schema_exist, check_role_db_schema_exists}

module _ ⦃db : Server⦄ where
  role_and_schema_exist-eq-ok :
      (d : ResourceData) (l l' : Live db.Session) (role schema b : Bool)
      → Answers
          (db.rows "SELECT 1 FROM pg_roles WHERE rolname=$1"
            (Value.text (d.get_string "role") ∷ [])
            l.session)
          role
      → Answers
          (db.rows "SELECT 1 FROM pg_namespace WHERE nspname=$1"
            (Value.text (d.get_string "schema") ∷ [])
            l.session)
          schema
      → role_and_schema_exist d l ≡ (ok b, l')
      → (b ≡ (
          (d.get_string "role" == public_role || role)
          && (has_no_schema (d.get_string "object_type")
              || (d.get_string "schema" == "" || schema))))
        × (l' ≡ l)
  unfolding role_and_schema_exist role_exists schema_exists row_exists
  role_and_schema_exist-eq-ok d l l' role schema b hr hs h = ground arith

  db_exists-eq-ok :
      (name : String) (m m' : Machine db.World) (a b : Bool)
      → Answers
          (db.rows "SELECT datname FROM pg_database WHERE datname=$1"
            (Value.text name ∷ [])
            (db.direct m.world))
          a
      → directly (db_exists name) m ≡ (ok b, m')
      → (b ≡ a) × (m' ≡ m)
  unfolding directly db_exists row_exists
  db_exists-eq-ok name m m' a b h e = ground arith

  rolled_back-eq-ok :
      (c : Connection) (d : ResourceData) (m m' : Machine db.World) (s : db.Session)
      (role schema b : Bool)
      → start_transaction c.client (d.get_string "database") m.world ≡ ok s
      → Answers
          (db.rows "SELECT 1 FROM pg_roles WHERE rolname=$1"
            (Value.text (d.get_string "role") ∷ [])
            s)
          role
      → Answers
          (db.rows "SELECT 1 FROM pg_namespace WHERE nspname=$1"
            (Value.text (d.get_string "schema") ∷ [])
            s)
          schema
      → rolled_back c.client (d.get_string "database") (role_and_schema_exist d) m ≡ (ok b, m')
      → (b ≡ (
          (d.get_string "role" == public_role || role)
          && (has_no_schema (d.get_string "object_type")
              || (d.get_string "schema" == "" || schema))))
        × (m' ≡ m)
  unfolding rolled_back
  rolled_back-eq-ok c d m m' s role schema b start hr hs h = ground (
    arith,
    role_and_schema_exist-eq-ok d (record { session = s; resource = m.resource })
        (role_and_schema_exist d (record { session = s; resource = m.resource })).1 role schema b hr
        hs,
  )

  -- Where the check of a grant's surroundings succeeds, and, if the server has the database, a session
  -- on it can be opened and answers: it finds the surroundings exactly when the server has the database,
  -- the role unless it is "public", and the schema unless the type of object has none or none is named;
  -- and it changes nothing.
  pub check_role_db_schema_exists-eq-ok :
      (c : Connection) (d : ResourceData) (m m' : Machine db.World) (s : db.Session)
      (database role schema b : Bool)
      → Answers
          (db.rows "SELECT datname FROM pg_database WHERE datname=$1"
            (Value.text (d.get_string "database") ∷ [])
            (db.direct m.world))
          database
      → (database ≡ true → start_transaction c.client (d.get_string "database") m.world ≡ ok s)
      → (database ≡ true
          → Answers
              (db.rows "SELECT 1 FROM pg_roles WHERE rolname=$1"
                (Value.text (d.get_string "role") ∷ [])
                s)
              role)
      → (database ≡ true
          → Answers
              (db.rows "SELECT 1 FROM pg_namespace WHERE nspname=$1"
                (Value.text (d.get_string "schema") ∷ [])
                s)
              schema)
      → check_role_db_schema_exists c d m ≡ (ok b, m')
      → (b ≡ (
          database
          && ((d.get_string "role" == public_role || role)
              && (has_no_schema (d.get_string "object_type")
                  || (d.get_string "schema" == "" || schema)))))
        × (m' ≡ m)
  unfolding check_role_db_schema_exists
  check_role_db_schema_exists-eq-ok c d m m' s database role schema b hd start hr hs h =
      bind-elim (directly (db_exists (d.get_string "database"))) _ m m' b h λ there u p q.
        let (e, same) = db_exists-eq-ok (d.get_string "database") m u database there hd p in
        elim (Bool-cases there) [
          | inr gone ↦ let q' = rw gone at q in ground arith
          | inl found ↦
              let q' = rw (found, same) at q in
              let has : database ≡ true = cc in
              let r = rolled_back-eq-ok c d m m' s role schema b (start has) (hr has) (hs has) q' in
              ground arith
        ]
