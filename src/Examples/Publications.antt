-- ===== src/Examples/Publications.antt =====
-- postgresql_publication on the sample server: the publication "pub" with the table "a", which is
-- replaced by "s.b".
use text.Mathlib.TextLemmas.{append_cancel_left}
use yb_terraform_provider_po.Prelude.{
  ℕ, String, Bool, true, false, not, ◌&&◌, ◌||◌, List, [], ◌∷◌, All, ◌==◌, eq_iff, ◌<>◌, ◌≡◌, ◌≢◌,
  ◌↔◌, refl, ap, sym, ◌∙◌, arith, if◌then◌else◌, code,
}
use yb_terraform_provider_po.Prelude.Result.{Result, ok}
use yb_terraform_provider_po.Strings.{append-prepend, replace, split, join}
use yb_terraform_provider_po.Slices.{slice_contains_str, array_difference, is_unique_arr}
use yb_terraform_provider_po.Slices.Laws.{IsUnique}
use yb_terraform_provider_po.Quote.{quote_table_name}
use yb_terraform_provider_po.Quote.Table.{quote_table_name_inj}
use yb_terraform_provider_po.Qualified.Laws.{split_inj}
use yb_terraform_provider_po.Terraform.{ResourceData}
use yb_terraform_provider_po.Transaction.{Live, exec}
use yb_terraform_provider_po.Transaction.Atomic.{IsAllOrNothing}
use yb_terraform_provider_po.Publication.{get_publication_parameters, is_given}
use yb_terraform_provider_po.Publication.Setters.{set_pub_tables}
use yb_terraform_provider_po.Publication.Handlers.{
  database_of, publication_update, update_publication, publication_create, publication_delete,
  drop_publication,
}
use yb_terraform_provider_po.Publication.Tables.{Publications, Publishes, set_pub_tables-Publishes}
use yb_terraform_provider_po.Publication.Params.{IsOperation, get_publication_parameters_iff}
use yb_terraform_provider_po.Publication.Atomic.{IsCreated, publication-IsAllOrNothing}
use yb_terraform_provider_po.Examples.Server.{sample_pq, sample_db}
use yb_terraform_provider_po.Examples.Memberships.{no_data, start}
use yb_terraform_provider_po.Examples.Grants.{connection, machine, commits}

abbrev add_sql : String → String
add_sql table = "ALTER PUBLICATION " <> "pub" <> " ADD TABLE " <> table

abbrev drop_sql : String → String
drop_sql table = "ALTER PUBLICATION " <> "pub" <> " DROP TABLE " <> table

-- what the newest statement on a table says
unfoldable listed : List String → String → Bool
listed [] table = table == "\"a\""
listed (sql ∷ log) table =
    let before = listed log table in
    if sql == add_sql table then true else if sql == drop_sql table then false else before

abbrev second : String → ℕ
second (String.◌∷◌ c (String.◌∷◌ d s)) = code d
second _ = 0

add_sql_inj : (a b : String) → add_sql a ≡ add_sql b → a ≡ b
add_sql_inj a b e =
    append_cancel_left " ADD TABLE " a b
      (append_cancel_left "pub" _ _ (append_cancel_left "ALTER PUBLICATION " _ _ e))

drop_sql_inj : (a b : String) → drop_sql a ≡ drop_sql b → a ≡ b
drop_sql_inj a b e =
    append_cancel_left " DROP TABLE " a b
      (append_cancel_left "pub" _ _ (append_cancel_left "ALTER PUBLICATION " _ _ e))

add-ne-drop : (a b : String) → add_sql a ≢ drop_sql b
add-ne-drop a b e =
    let f = append_cancel_left "pub" _ _ (append_cancel_left "ALTER PUBLICATION " _ _ e) in
    let p : second (" ADD TABLE " <> a) ≡ b'A' = ap second (append-prepend " ADD TABLE " a) in
    let q : second (" DROP TABLE " <> b) ≡ b'D' = ap second (append-prepend " DROP TABLE " b) in
    absurd (omega (arith, sym p ∙ ap second f ∙ q))

listed_added :
    (log : List String) (table x : String)
    → listed (add_sql table ∷ log) x ≡ (x == table || listed log x)
unfolding listed
listed_added log table x = ground (
  arith,
  eq_iff x table,
  eq_iff (add_sql table) (add_sql x),
  eq_iff (add_sql table) (drop_sql x),
  add_sql_inj table x,
  add-ne-drop table x,
  λ (e : x ≡ table). ap (λ t. add_sql t) e,
)

listed_dropped :
    (log : List String) (table x : String)
    → listed (drop_sql table ∷ log) x ≡ (not (x == table) && listed log x)
unfolding listed
listed_dropped log table x = ground (
  arith,
  eq_iff x table,
  eq_iff (drop_sql table) (add_sql x),
  eq_iff (drop_sql table) (drop_sql x),
  drop_sql_inj table x,
  λ (e : drop_sql table ≡ add_sql x). add-ne-drop x table (sym e),
  λ (e : x ≡ table). ap (λ t. drop_sql t) e,
)

after_run :
    (s t : List String) {sql : String} (x : String)
    → sample_db.run sql [] s ≡ (ok tt, t)
    → listed t x ≡ listed (sql ∷ s) x
after_run s t x e = ap (λ (r : Result (Unit {0}) × List String). listed r.1 x) (sym e)

unfoldable sample_publications : Publications "pub"
sample_publications = record {
  published = listed;
  added = λ s t table x e. after_run s t x e ∙ listed_added s table x;
  dropped = λ s t table x e. after_run s t x e ∙ listed_dropped s table x;
}

abbrev tables_data : ResourceData
tables_data = record no_data {
  get_string = λ name. if name == "name" then "pub" else "";
  get_list = λ name.
      if name == "tables"
      then "s.b" ∷ []
      else if name == "publish_param"
      then "insert" ∷ []
      else [];
  old_list = λ name. if name == "tables" then "a" ∷ [] else [];
  has_change = λ name. name == "tables";
  get_ok = λ name. name == "tables";
}

abbrev altered : Live (List String)
altered = (set_pub_tables tables_data start).1

were_altered : set_pub_tables tables_data start ≡ (ok tt, altered)
unfolding set_pub_tables is_unique_arr array_difference quote_table_name exec replace split join
were_altered = refl

statements :
    altered.session
    ≡ "ALTER PUBLICATION pub DROP TABLE \"a\"" ∷ "ALTER PUBLICATION pub ADD TABLE \"s\".\"b\"" ∷ []
unfolding set_pub_tables is_unique_arr array_difference quote_table_name exec replace split join
statements = refl

quoted_a : quote_table_name "a" ≡ "\"a\""
unfolding quote_table_name replace split join
quoted_a = refl

at_first : Publishes tables_data sample_publications ("a" ∷ []) start.session
unfolding listed sample_publications slice_contains_str
at_first x n = ground (
  arith,
  eq_iff "a" x,
  eq_iff (quote_table_name x) "\"a\"",
  λ (e : quote_table_name x ≡ "\"a\"").
      split_inj "a" x (quote_table_name_inj "a" x (cc, tt) n (quoted_a ∙ sym e)),
  λ (e : "a" ≡ x). ap (λ t. quote_table_name t) (sym e) ∙ quoted_a,
)

set_pub_tables-Publishes_example :
    Publishes tables_data sample_publications ("s.b" ∷ []) altered.session
set_pub_tables-Publishes_example =
    set_pub_tables-Publishes tables_data sample_publications start altered ((cc, tt), tt)
      ((cc, (cc, (cc, tt))), tt) (λ e. absurd (cc)) at_first were_altered

get_publication_parameters_iff_example :
    ((text : String) × (get_publication_parameters true tables_data true ≡ ok text)) ↔ (
      (is_given tables_data "publish_via_partition_root_param" ≡ true → true ≡ true)
      × (is_given tables_data "publish_param" ≡ true
          → IsUnique ("insert" ∷ []) × All IsOperation ("insert" ∷ [])))
get_publication_parameters_iff_example = get_publication_parameters_iff true tables_data true

publication-IsAllOrNothing_example :
    IsCreated true connection tables_data machine
      (publication_create true connection tables_data machine)
    × IsAllOrNothing connection.client
        (database_of connection tables_data)
        (update_publication true connection tables_data)
        machine
        (publication_update true connection tables_data machine)
    × IsAllOrNothing connection.client
        (database_of connection tables_data)
        (drop_publication tables_data)
        machine
        (publication_delete connection tables_data machine)
publication-IsAllOrNothing_example =
    publication-IsAllOrNothing true connection tables_data machine commits
