-- ===== src/Quote.antt =====
-- Quoting for SQL text (postgresql/helpers.go): literals, identifiers, identifiers of functions with
-- their argument types, table names with a schema.
pub mod Identifier
pub mod Literal
pub mod Table
pub mod Objects
use yb_terraform_provider_po.Prelude.{String, List, [], ◌∷◌, map, ◌<>◌, ◌≡◌, refl}
use yb_terraform_provider_po.Strings.{replace, split, join}
use yb_terraform_provider_po.Postgres.{Pq}

-- pqQuoteLiteral
unfoldable pub pq_quote_literal : String → String
unfolding replace
pq_quote_literal s = replace b'\'' "''" (replace b'\\' "\\\\" s)

-- the text behind the first bracket, with the bracket, as quoteIdentifyIdent keeps it
abbrev pub argument_types : List String → String
argument_types (name ∷ types ∷ rest) = "(" <> types
argument_types _ = ""

abbrev pub first_part : List String → String
first_part [] = ""
first_part (p ∷ ps) = p

module _ ⦃pq : Pq⦄ where
  -- quoteIdentifyIdent
  unfoldable pub quote_identify_ident : String → String
  unfolding split
  quote_identify_ident ident =
      let s = split ident "(" in pq.quote_identifier (first_part s) <> argument_types s

  -- setToPgIdentList
  unfoldable pub set_to_pg_ident_list : String → List String → String
  unfolding quote_identify_ident join
  set_to_pg_ident_list schema idents =
      join (map (λ ident. pq.quote_identifier schema <> "." <> quote_identify_ident ident) idents)
        ","

  -- setToPgIdentListWithoutSchema
  unfoldable pub set_to_pg_ident_list_without_schema : List String → String
  unfolding join
  set_to_pg_ident_list_without_schema idents = join (map pq.quote_identifier idents) ","

  -- quoteTableName
  unfoldable pub quote_table_name : String → String
  unfolding split join
  quote_table_name table_name = join (map pq.quote_identifier (split table_name ".")) "."

-- setToPgIdentSimpleList
unfoldable pub set_to_pg_ident_simple_list : List String → String
unfolding join
set_to_pg_ident_simple_list idents = join idents ","

quoted : pq_quote_literal "it's \\" ≡ "it''s \\\\"
unfolding pq_quote_literal
quoted = refl
