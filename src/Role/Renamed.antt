-- ===== src/Role/Renamed.antt =====
-- The id of a role whose update fails after its renaming (setRoleName, resourcePostgreSQLRoleUpdate).
use yb_terraform_provider_po.Prelude.{String, Bool, true, List, [], ◌≡◌, sym, ap, ◌∙◌, arith}
use yb_terraform_provider_po.Prelude.Result.{Result, ok, err, lift, when, context, ◌>>◌}
use yb_terraform_provider_po.Postgres.{Value, Pq, Server}
use yb_terraform_provider_po.Terraform.{ResourceData}
use yb_terraform_provider_po.Terraform
use yb_terraform_provider_po.Transaction.{
  Live, Machine, Connection, Txn, exec, query, set_id, start_transaction,
}
use yb_terraform_provider_po.Transaction.Atomic.{transaction-err}
use yb_terraform_provider_po.Transaction.Keeps.{
  Keeps, Keeps-eq, pure-Keeps, fail-Keeps, lift-Keeps, exec-Keeps, query-Keeps, context-Keeps,
  bind-Keeps, when-Keeps, if-Keeps, for_each-Keeps,
}
use yb_terraform_provider_po.Catalog.{pg_lock_role}
use yb_terraform_provider_po.Role.Settings.{
  set_role_name, set_role_password, set_role_bypass_rls, set_role_conn_limit, set_role_option,
  set_role_create_db, set_role_create_role, set_role_inherit, set_role_login, set_role_replication,
  set_role_superuser, set_role_valid_until, revoke_roles, grant_roles, alter_search_path,
  set_timeout, set_statement_timeout, set_idle_in_transaction_session_timeout, set_assume_role,
  roles_query, scan_roles,
}
use yb_terraform_provider_po.Role.Handlers.{finish_role, alter_steps, update_steps, role_update}

module _ ⦃db : Server⦄ where
  statement-Keeps :
      (message sql : String) (args : List Value) → Keeps (context message (exec sql args))
  statement-Keeps message sql args = context-Keeps message (exec sql args) (exec-Keeps sql args)

  pg_lock_role-Keeps : (role : String) → Keeps (pg_lock_role role)
  unfolding pg_lock_role
  pg_lock_role-Keeps role =
      bind-Keeps (context _ (exec _ _)) _ (statement-Keeps _ _ _)
        λ _. bind-Keeps (context _ (exec _ _)) _ (statement-Keeps _ _ _) λ _. statement-Keeps _ _ _

  module _ ⦃pq : Pq⦄ where
    changed-Keeps :
        (b : Bool) (message sql : String) → Keeps (when b (context message (exec sql [])))
    changed-Keeps b message sql = when-Keeps b _ (statement-Keeps message sql [])

    bypass_rls-Keeps : (c : Connection) (d : ResourceData) → Keeps (set_role_bypass_rls c d)
    unfolding set_role_bypass_rls
    bypass_rls-Keeps c d =
        if-Keeps _ _ _ (pure-Keeps tt) (if-Keeps _ _ _ (fail-Keeps Unit _) (statement-Keeps _ _ []))

    alter_steps-Keeps : (c : Connection) (d : ResourceData) → Keeps (alter_steps c d)
    unfolding alter_steps set_role_password set_role_conn_limit set_role_option set_role_create_db
        set_role_create_role set_role_inherit set_role_login set_role_replication set_role_superuser
        set_role_valid_until
    alter_steps-Keeps c d = bind-Keeps (set_role_password d) _ (changed-Keeps _ _ _) λ _.
        bind-Keeps (set_role_bypass_rls c d) _ (bypass_rls-Keeps c d) λ _.
          bind-Keeps (set_role_conn_limit d) _ (changed-Keeps _ _ _) λ _.
            bind-Keeps (set_role_create_db d) _ (changed-Keeps _ _ _) λ _.
              bind-Keeps (set_role_create_role d) _ (changed-Keeps _ _ _) λ _.
                bind-Keeps (set_role_inherit d) _ (changed-Keeps _ _ _) λ _.
                  bind-Keeps (set_role_login d) _ (changed-Keeps _ _ _) λ _.
                    bind-Keeps (set_role_replication d) _ (changed-Keeps _ _ _) λ _.
                      bind-Keeps (set_role_superuser d) _ (changed-Keeps _ _ _)
                        λ _. changed-Keeps _ _ _

    set_timeout-Keeps : (attribute : String) (d : ResourceData) → Keeps (set_timeout attribute d)
    unfolding set_timeout
    set_timeout-Keeps attribute d =
        when-Keeps _ _ (if-Keeps _ _ _ (statement-Keeps _ _ []) (statement-Keeps _ _ []))

    set_assume_role-Keeps : (d : ResourceData) → Keeps (set_assume_role d)
    unfolding set_assume_role
    set_assume_role-Keeps d =
        when-Keeps _ _ (if-Keeps _ _ _ (statement-Keeps _ _ []) (statement-Keeps _ _ []))

    finish_role-Keeps : (d : ResourceData) → Keeps (finish_role d)
    unfolding finish_role grant_roles alter_search_path set_statement_timeout
        set_idle_in_transaction_session_timeout
    finish_role-Keeps d =
        bind-Keeps (grant_roles d) _ (for_each-Keeps _ _ (λ x. statement-Keeps _ _ [])) λ _.
          bind-Keeps (alter_search_path d) _
            (bind-Keeps (lift _) _ (lift-Keeps _) (λ quoted. statement-Keeps _ _ []))
            λ _. bind-Keeps (set_statement_timeout d) _ (set_timeout-Keeps _ d) λ _.
              bind-Keeps (set_idle_in_transaction_session_timeout d) _ (set_timeout-Keeps _ d)
                λ _. set_assume_role-Keeps d

    revoke_roles-Keeps : (d : ResourceData) → Keeps (revoke_roles d)
    unfolding revoke_roles
    revoke_roles-Keeps d =
        bind-Keeps (context _ (query roles_query _)) _ (context-Keeps _ _ (query-Keeps _ _)) λ rows.
          bind-Keeps (lift (scan_roles (d.get_string "name") rows)) _ (lift-Keeps _)
            λ granted. for_each-Keeps granted _ (λ x. statement-Keeps _ _ [])

    -- what the update does behind the renaming
    abbrev pub after_name : Connection → ResourceData → Txn (Unit {0})
    after_name c d = alter_steps c d >> (revoke_roles d >> finish_role d)

    after_name-Keeps : (c : Connection) (d : ResourceData) → Keeps (after_name c d)
    after_name-Keeps c d =
        bind-Keeps (alter_steps c d) _ (alter_steps-Keeps c d)
          λ _. bind-Keeps (revoke_roles d) _ (revoke_roles-Keeps d) λ _. finish_role-Keeps d

    set_role_name-resource :
        (d : ResourceData) (l l' : Live db.Session)
        → d.has_change "name" ≡ true
        → set_role_name d l ≡ (ok tt, l')
        → l'.resource ≡ Terraform.set_id (d.get_string "name") l.resource
    unfolding set_role_name exec set_id
    set_role_name-resource d l l' changed h = ground arith

    update_steps-err :
        (c : Connection) (d : ResourceData) (l l₁ l₂ l₃ : Live db.Session) (e : String)
        → pg_lock_role (d.old_string "name") l ≡ (ok tt, l₁)
        → set_role_name d l₁ ≡ (ok tt, l₂)
        → after_name c d l₂ ≡ (err e, l₃)
        → update_steps c d l ≡ (err e, l₃)
    unfolding update_steps
    update_steps-err c d l l₁ l₂ l₃ e lock name rest = rw lock (rw name rest)

    renamed-resource :
        (c : Connection) (d : ResourceData) (l l₁ l₂ l₃ : Live db.Session) (e : String)
        → d.has_change "name" ≡ true
        → pg_lock_role (d.old_string "name") l ≡ (ok tt, l₁)
        → set_role_name d l₁ ≡ (ok tt, l₂)
        → after_name c d l₂ ≡ (err e, l₃)
        → l₃.resource ≡ Terraform.set_id (d.get_string "name") l.resource
    renamed-resource c d l l₁ l₂ l₃ e changed lock name rest =
        ap (λ (r : Result (Unit {0}) × Live db.Session). r.1.resource) (sym rest)
        ∙ Keeps-eq (after_name c d) l₂ (after_name-Keeps c d)
        ∙ set_role_name-resource d l₁ l₂ changed name
        ∙ ap (Terraform.set_id (d.get_string "name")) (
            ap (λ (r : Result (Unit {0}) × Live db.Session). r.1.resource) (sym lock)
            ∙ Keeps-eq (pg_lock_role (d.old_string "name")) l (pg_lock_role-Keeps _))

    -- Where the transaction of an update starts, the renaming of the role succeeds and a later step
    -- fails, the update returns that error and the committed state is the old one; but the id of
    -- the resource is the new name.
    pub role_update-renamed :
        (md5_hex : String → String) (c : Connection) (d : ResourceData) (m : Machine db.World)
        (s : db.Session) (l₁ l₂ l₃ : Live db.Session) (e : String)
        → d.has_change "name" ≡ true
        → start_transaction c.client "" m.world ≡ ok s
        → pg_lock_role (d.old_string "name") (record { session = s; resource = m.resource })
          ≡ (ok tt, l₁)
        → set_role_name d l₁ ≡ (ok tt, l₂)
        → after_name c d l₂ ≡ (err e, l₃)
        → role_update md5_hex c d m ≡ (
          err e,
          record { world = m.world; resource = Terraform.set_id (d.get_string "name") m.resource },
        )
    unfolding role_update
    role_update-renamed md5_hex c d m s l₁ l₂ l₃ e changed start lock name rest =
        let l : Live db.Session = record { session = s; resource = m.resource } in
        rw
          (transaction-err c.client "" "could not commit transaction: " e (update_steps c d) m s l₃
            start (update_steps-err c d l l₁ l₂ l₃ e lock name rest))
          (ap (λ (r : ResourceData). (Result.err e, record { world = m.world; resource = r }))
            (renamed-resource c d l l₁ l₂ l₃ e changed lock name rest))
