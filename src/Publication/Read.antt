-- ===== src/Publication/Read.antt =====
-- Reading a publication back (postgresql/resource_postgresql_publication.go:
-- resourcePostgreSQLPublicationExists, resourcePostgreSQLPublicationReadImpl).
use yb_terraform_provider_po.Prelude.{
  String, Bool, true, false, List, [], ◌∷◌, ◌++◌, ◌<>◌, if◌then◌else◌,
}
use yb_terraform_provider_po.Prelude.Result.{
  Result, ok, err, pure, fail, lift, context, when, ◌>>=◌, ◌>>◌,
}
use yb_terraform_provider_po.Strings.{join}
use yb_terraform_provider_po.Quote.{pq_quote_literal}
use yb_terraform_provider_po.Postgres.{
  Value, Row, Server, row, no_rows, failed, as_text, scan_error,
}
use yb_terraform_provider_po.Features.{feature_supported, publish_via_root, pub_truncate}
use yb_terraform_provider_po.Features
use yb_terraform_provider_po.Terraform.{ResourceData, Setting}
use yb_terraform_provider_po.Transaction.{
  Connection, Txn, Handler, query, query_row, set, set_id, rolled_back, directly, starts,
  handler_get_id,
}
use yb_terraform_provider_po.Catalog.{db_exists}
use yb_terraform_provider_po.Publication.{
  generate_publication_id, get_db_publication_name, check_publication_feature,
}

-- the variables that the query is scanned into
pub record PublicationRow : Type 0 where
  pub all_tables : Bool
  pub insert : Bool
  pub update : Bool
  pub delete : Bool
  pub owner : String
  pub via_root : Bool
  pub truncate : Bool

-- the columns by version: publish_via_partition_root, then truncate
abbrev as_versioned : Bool → Bool → Row → Result (Bool × Bool)
as_versioned true true (Value.bool r ∷ Value.bool t ∷ []) = ok (r, t)
as_versioned true false (Value.bool r ∷ []) = ok (r, false)
as_versioned false true (Value.bool t ∷ []) = ok (false, t)
as_versioned false false [] = ok (false, false)
as_versioned _ _ _ = err scan_error

abbrev pub as_publication : Bool → Bool → Row → Result PublicationRow
as_publication r t
      (Value.bool a ∷ Value.bool i ∷ Value.bool u ∷ Value.bool d ∷ Value.text o ∷ more) =
    elim (as_versioned r t more) [
      | err e ↦ err e
      | ok (root, trunc) ↦ ok (record {
        all_tables = a;
        insert = i;
        update = u;
        delete = d;
        owner = o;
        via_root = root;
        truncate = trunc;
      })
    ]
as_publication r t _ = err scan_error

unfoldable pub publication_columns : Bool → Bool → List String
publication_columns root truncate =
    "puballtables"
    ∷ "pubinsert"
    ∷ "pubupdate"
    ∷ "pubdelete"
    ∷ "r.rolname as pubownername"
    ∷ ((if root then "pubviaroot" ∷ [] else []) ++ (if truncate then "pubtruncate" ∷ [] else []))

-- the loop over the tables
unfoldable pub scan_tables : List Row → List String → Result (List String)
scan_tables [] tables = ok tables
scan_tables (r ∷ rows) tables = elim (as_text r) [
  | err e ↦ err ("could not get tables: " <> e)
  | ok table ↦ scan_tables rows (tables ++ table ∷ [])
]

-- publishParams
unfoldable pub publish_params : PublicationRow → List String
publish_params p =
    (if p.insert then "insert" ∷ [] else [])
    ++ ((if p.update then "update" ∷ [] else [])
        ++ ((if p.delete then "delete" ∷ [] else [])
            ++ (if p.truncate then "truncate" ∷ [] else [])))

module _ ⦃db : Server⦄ where
  -- the d.SetId and d.Set calls at the end of resourcePostgreSQLPublicationReadImpl
  unfoldable pub set_publication :
      ResourceData → String → String → Bool → PublicationRow → List String → Txn (Unit {0})
  unfolding publish_params
  set_publication d database name root p tables = do
    set_id (generate_publication_id d database)
    set "name" (Setting.text name)
    set "database" (Setting.text database)
    set "owner" (Setting.text p.owner)
    set "tables" (Setting.texts tables)
    set "all_tables" (Setting.bool p.all_tables)
    set "publish_param" (Setting.texts (publish_params p))
    when root (set "publish_via_partition_root_param" (Setting.bool p.via_root))

  -- what resourcePostgreSQLPublicationReadImpl does with a publication that it has found
  unfoldable pub read_tables :
      ResourceData → String → String → Bool → PublicationRow → Txn (Unit {0})
  unfolding scan_tables
  read_tables d database name root p = do
    rows ← context "could not get publication tables: " (
        query
          "SELECT CONCAT(schemaname,'.',tablename) as fulltablename FROM pg_catalog.pg_publication_tables WHERE pubname = $1"
          (Value.text (pq_quote_literal name) ∷ []))
    tables ← lift (scan_tables rows [])
    set_publication d database name root p tables

  -- the transaction of resourcePostgreSQLPublicationReadImpl
  unfoldable pub read_publication : Connection → ResourceData → String → String → Txn (Unit {0})
  unfolding publication_columns join
  read_publication c d database name = do
    let root = feature_supported Features.publish_via_root c.version
    let truncate = feature_supported Features.pub_truncate c.version
    answer ←
        query_row (as_publication root truncate)
          ("SELECT "
            <> join (publication_columns root truncate) ", "
            <> " FROM pg_catalog.pg_publication as p join pg_catalog.pg_roles as r on p.pubowner = r.oid WHERE pubname = $1")
          (Value.text (pq_quote_literal name) ∷ [])
    elim answer [
      | no_rows ↦ set_id ""
      | failed e ↦ fail ("Error reading publication info: " <> e)
      | row p ↦ read_tables d database name root p
    ]

  -- resourcePostgreSQLPublicationReadImpl
  unfoldable pub publication_read_impl : Connection → ResourceData → Handler (Unit {0})
  publication_read_impl c d = do
    lift (check_publication_feature c)
    id ← handler_get_id
    names ←
        context "could not get publication name: " (lift (get_db_publication_name d id c.client))
    context "could not start transaction: " (starts c.client names.0)
    rolled_back c.client names.0 (read_publication c d names.0 names.1)

  -- the transaction of resourcePostgreSQLPublicationExists
  unfoldable pub publication_there : String → Txn Bool
  publication_there name = do
    answer ←
        query_row as_text "SELECT pubname FROM pg_catalog.pg_publication WHERE pubname = $1"
          (Value.text (pq_quote_literal name) ∷ [])
    elim answer [ row _ ↦ pure true | no_rows ↦ pure false | failed e ↦ fail e ]

  -- resourcePostgreSQLPublicationExists
  unfoldable pub publication_exists : Connection → ResourceData → Handler Bool
  unfolding publication_there
  publication_exists c d = do
    lift (check_publication_feature c)
    id ← handler_get_id
    names ← lift (get_db_publication_name d id c.client)
    exists ← directly (db_exists names.0)
    if exists then rolled_back c.client names.0 (publication_there names.1) else pure false
