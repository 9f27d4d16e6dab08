-- ===== src/Publication/Tables.antt =====
-- The statements of setPubTables turn the old tables of a publication into the new ones.
use yb_terraform_provider_po.Prelude.{
  String, Bool, false, not, ◌&&◌, ◌||◌, List, [], ◌∷◌, ◌++◌, map, All, ◌==◌, eq_iff, ◌<>◌, ◌≡◌,
  refl, ap, sym, arith, Bool-cases, Option-cases, inl, inr,
}
use yb_terraform_provider_po.Prelude.Result.{Result, ok, context, context-eq-ok, bind-elim}
use yb_terraform_provider_po.Slices.{slice_contains_str, array_difference, is_unique_arr}
use yb_terraform_provider_po.Slices.Laws.{contains-array_difference}
use yb_terraform_provider_po.Postgres.{Pq, NoNul, Server}
use yb_terraform_provider_po.Quote.{quote_table_name}
use yb_terraform_provider_po.Quote.Table.{quote_table_name_inj}
use yb_terraform_provider_po.Qualified.Laws.{split_inj}
use yb_terraform_provider_po.Terraform.{ResourceData}
use yb_terraform_provider_po.Transaction.{Live, exec}
use yb_terraform_provider_po.Publication.Setters.{
  set_pub_tables, add_table, drop_table, alter_tables,
}

-- What PostgreSQL documents of ALTER PUBLICATION: ADD TABLE makes one more table published, DROP TABLE
-- makes one table unpublished. A table is the text that names it in the statement.
pub record Publications ⦃db : Server⦄ (name : String) : Type 0 where
  pub published : db.Session → String → Bool
  pub added :
      (s t : db.Session) (table x : String)
      → db.run ("ALTER PUBLICATION " <> name <> " ADD TABLE " <> table) [] s ≡ (ok tt, t)
      → published t x ≡ (x == table || published s x)
  pub dropped :
      (s t : db.Session) (table x : String)
      → db.run ("ALTER PUBLICATION " <> name <> " DROP TABLE " <> table) [] s ≡ (ok tt, t)
      → published t x ≡ (not (x == table) && published s x)

-- the list has the text, quoted
module _ ⦃pq : Pq⦄ where
  contains-quoted :
      (l : List String) (x : String)
      → All NoNul l
      → NoNul x
      → slice_contains_str (map quote_table_name l) (quote_table_name x) ≡ slice_contains_str l x
  unfolding slice_contains_str
  contains-quoted [] x h n = refl
  contains-quoted (a ∷ l) x (h, hs) n = ground (
    arith,
    contains-quoted l x hs n,
    eq_iff a x,
    eq_iff (quote_table_name a) (quote_table_name x),
    λ (e : quote_table_name a ≡ quote_table_name x). split_inj a x (quote_table_name_inj a x h n e),
    λ (e : a ≡ x). ap (λ t. quote_table_name t) e,
  )

module _ ⦃db : Server⦄ ⦃pq : Pq⦄ (name : String) (law : Publications name) where
  exec_run :
      (sql : String) (l l' : Live db.Session)
      → context "could not alter publication table: " (exec sql []) l ≡ (ok tt, l')
      → db.run sql [] l.session ≡ (ok tt, l'.session)
  unfolding exec
  exec_run sql l l' h =
      let e = context-eq-ok "could not alter publication table: " (exec sql []) l h in ground arith

  added_tables :
      (tables rest : List String) (l l' : Live db.Session)
      → alter_tables (map (add_table name) tables ++ rest) l ≡ (ok tt, l')
      → (u : Live db.Session) × ((y : String)
          → law.published u.session y
            ≡ (slice_contains_str (map quote_table_name tables) y || law.published l.session y))
        × (alter_tables rest u ≡ (ok tt, l'))
  unfolding slice_contains_str
  added_tables [] rest l l' h = (l, λ y. refl, h)
  added_tables (a ∷ tables) rest l l' h =
      bind-elim (context _ (exec (add_table name a) [])) _ l l' tt h λ _ v p q.
        let (u, f, r) = added_tables tables rest v l' q in
        (
          u,
          λ y. ground (
            arith,
            f y,
            law.added l.session v.session (quote_table_name a) y
                (exec_run (add_table name a) l v p),
            eq_iff (quote_table_name a) y,
            eq_iff y (quote_table_name a),
          ),
          r,
        )

  dropped_tables :
      (tables : List String) (l l' : Live db.Session)
      → alter_tables (map (drop_table name) tables) l ≡ (ok tt, l')
      → (y : String)
      → law.published l'.session y
        ≡ (not (slice_contains_str (map quote_table_name tables) y) && law.published l.session y)
  unfolding slice_contains_str
  dropped_tables [] l l' h y =
      ap (λ (r : Result (Unit {0}) × Live db.Session). law.published r.1.session y) (sym h)
  dropped_tables (a ∷ tables) l l' h y =
      bind-elim (context _ (exec (drop_table name a) [])) _ l l' tt h λ _ v p q. ground (
        arith,
        dropped_tables tables v l' q y,
        law.dropped l.session v.session (quote_table_name a) y (exec_run (drop_table name a) l v p),
        eq_iff (quote_table_name a) y,
        eq_iff y (quote_table_name a),
      )

difference-All : (a b : List String) → All NoNul a → All NoNul (array_difference a b)
unfolding array_difference
difference-All [] b h = tt
difference-All (x ∷ a) b (h, hs) = elim (Bool-cases (slice_contains_str b x)) [
  | inl e ↦ rw e (difference-All a b hs)
  | inr e ↦ rw e (h, difference-All a b hs)
]

module _ ⦃db : Server⦄ ⦃pq : Pq⦄ (d : ResourceData) (law : Publications (d.get_string "name")) where
  -- exactly the given tables are published
  abbrev pub Publishes : List String → db.Session → Type 0
  Publishes tables s =
      (x : String) → NoNul x → law.published s (quote_table_name x) ≡ slice_contains_str tables x

  altered_tables :
      (old new : List String) (l l' : Live db.Session)
      → All NoNul old
      → All NoNul new
      → Publishes old l.session
      → alter_tables
          (map (add_table (d.get_string "name")) (array_difference new old)
            ++ map (drop_table (d.get_string "name")) (array_difference old new))
          l
        ≡ (ok tt, l')
      → Publishes new l'.session
  altered_tables old new l l' ho hn before h x nx =
      let name = d.get_string "name" in
      let plus = array_difference new old in
      let minus = array_difference old new in
      let (u, f, r) = added_tables name law plus (map (drop_table name) minus) l l' h in
      ground (
        arith,
        before x nx,
        f (quote_table_name x),
        dropped_tables name law minus u l' r (quote_table_name x),
        contains-quoted plus x (difference-All new old hn) nx,
        contains-quoted minus x (difference-All old new ho) nx,
        contains-array_difference new old x,
        contains-array_difference old new x,
      )

  -- Where setPubTables succeeds on a publication that publishes exactly the old tables, and the tables
  -- are the old ones unless Terraform reports a change: the publication then publishes exactly the new
  -- tables. Table names have no zero byte.
  pub set_pub_tables-Publishes :
      (l l' : Live db.Session)
      → All NoNul (d.old_list "tables")
      → All NoNul (d.get_list "tables")
      → (d.has_change "tables" ≡ false → d.old_list "tables" ≡ d.get_list "tables")
      → Publishes (d.old_list "tables") l.session
      → set_pub_tables d l ≡ (ok tt, l')
      → Publishes (d.get_list "tables") l'.session
  unfolding set_pub_tables
  set_pub_tables-Publishes l l' ho hn tracks before h = elim (Bool-cases (d.has_change "tables")) [
    | inl e ↦ elim (Option-cases (is_unique_arr (d.get_list "tables"))) [
      | inl u ↦
          altered_tables (d.old_list "tables") (d.get_list "tables") l l' ho hn before
            (rw (e, u) at h)
      | inr (elem, u) ↦ absurd (let h' = rw (e, u) at h in cc)
    ]
    | inr e ↦ λ x nx.
        let h' = rw e at h in
        let same : l.session ≡ l'.session = cc in rw (← same, ← tracks e) (before x nx)
  ]
