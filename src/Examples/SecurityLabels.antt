-- ===== src/Examples/SecurityLabels.antt =====
-- Security labels on the sample server.
use yb_terraform_provider_po.Prelude.{String, ◌==◌, ◌<>◌, ◌≡◌, if◌then◌else◌, some, [], arith}
use yb_terraform_provider_po.Terraform.{ResourceData}
use yb_terraform_provider_po.Transaction.{exec}
use yb_terraform_provider_po.SecurityLabel.{
  quote_identifier, security_label_sql, security_label_create, security_label_update,
  security_label_delete,
}
use yb_terraform_provider_po.SecurityLabel.Identifier.{
  IsQuotedIfNeeded, read_sql_name, read_sql_name-quote_identifier,
}
use yb_terraform_provider_po.SecurityLabel.Atomic.{IsOneStatement, security_label-IsOneStatement}
use yb_terraform_provider_po.Examples.Server.{sample_pq, sample_db}
use yb_terraform_provider_po.Examples.Memberships.{no_data}
use yb_terraform_provider_po.Examples.Grants.{connection, machine, commits}

abbrev label_data : ResourceData
label_data = record no_data {
  get_string =
      λ name. if name == "object_name" then "T" else if name == "object_type" then "table" else "l";
}

abbrev sample_literal : String → String
sample_literal s = "'" <> s <> "'"

security_label-IsOneStatement_example :
    IsOneStatement
      (exec (security_label_sql label_data "'l'") [])
      machine
      (security_label_create sample_literal connection label_data machine)
    × IsOneStatement
        (exec (security_label_sql label_data "'l'") [])
        machine
        (security_label_update sample_literal connection label_data machine)
    × IsOneStatement
        (exec (security_label_sql label_data "NULL") [])
        machine
        (security_label_delete connection label_data machine)
security_label-IsOneStatement_example =
    security_label-IsOneStatement sample_literal connection label_data machine commits

read_sql_name-quote_identifier_example :
    IsQuotedIfNeeded "Tab" (quote_identifier "Tab")
    × (read_sql_name (quote_identifier "Tab") ≡ some "Tab")
read_sql_name-quote_identifier_example =
    read_sql_name-quote_identifier "Tab" (omega arith, (omega arith, (omega arith, tt)))
