-- ===== src/Examples/Quotes.antt =====
-- Quoting at concrete inputs.
use yb_terraform_provider_po.Prelude.{◌<>◌, length, ◌≡◌, some, arith}
use yb_terraform_provider_po.Strings.{replace, split}
use yb_terraform_provider_po.Quote.{pq_quote_literal, quote_table_name}
use yb_terraform_provider_po.Quote.Literal.{
  read_escape, read_standard, read_escape-pq_quote_literal, read_standard-pq_quote_literal,
}
use yb_terraform_provider_po.Prelude.{[], ◌∷◌}
use yb_terraform_provider_po.Quote.{set_to_pg_ident_list}
use yb_terraform_provider_po.Quote.Objects.{read_object_list, read_object_list-set_to_pg_ident_list}
use yb_terraform_provider_po.Quote.Table.{read_path, read_path-quote_table_name}
use yb_terraform_provider_po.Examples.Server.{sample_pq}

read_escape-pq_quote_literal_example :
    read_escape (pq_quote_literal "it's \\o/" <> "'" <> " VALID") ≡ some ("it's \\o/", " VALID")
read_escape-pq_quote_literal_example =
    read_escape-pq_quote_literal "it's \\o/" " VALID" (omega arith)

read_standard-pq_quote_literal_example :
    read_standard (pq_quote_literal "it's \\o/" <> "'" <> " VALID")
    ≡ some (replace b'\\' "\\\\" "it's \\o/", " VALID")
read_standard-pq_quote_literal_example =
    read_standard-pq_quote_literal "it's \\o/" " VALID" (omega arith)

read_path-quote_table_name_example :
    read_path (length (split "public.my \"t\"" ".")) (quote_table_name "public.my \"t\"")
    ≡ some (split "public.my \"t\"" ".")
read_path-quote_table_name_example = read_path-quote_table_name "public.my \"t\"" (omega arith)

read_object_list-set_to_pg_ident_list_example :
    read_object_list 2 (set_to_pg_ident_list "public" ("a,b" ∷ "my \"t\"" ∷ []))
    ≡ some (("public", "a,b") ∷ ("public", "my \"t\"") ∷ [])
read_object_list-set_to_pg_ident_list_example =
    read_object_list-set_to_pg_ident_list "public" "a,b" ("my \"t\"" ∷ []) (omega arith)
      (omega arith) (omega arith)
