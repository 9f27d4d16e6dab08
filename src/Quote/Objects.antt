-- ===== src/Quote/Objects.antt =====
-- A quoted list of objects names the given objects of the schema (setToPgIdentList).
use Prim.Native.String.{[], ◌∷◌}
use mathlib.Core.List.{[], ◌∷◌}
use text.Mathlib.TextLemmas.{append-nil, append_assoc}
use yb_terraform_provider_po.Prelude.{
  ℕ, zero, suc, String, code, List, map, length, All, ◌<>◌, ◌≡◌, refl, ap, ◌∙◌, Option, none, true,
  false, some, arith, nat_eq,
}
use yb_terraform_provider_po.Strings.{has_prefix, split_from, split, join, prepend, append-prepend}
use yb_terraform_provider_po.Strings.Laws.{Lacks}
use yb_terraform_provider_po.Postgres.{Pq, NoNul}
use yb_terraform_provider_po.Quote.{quote_identify_ident, set_to_pg_ident_list}
use yb_terraform_provider_po.Quote.Identifier.{
  Ends, read_identifier, read_identifier-quote_identifier,
}

abbrev pub Object : Type 0
Object = String × String

abbrev and_then : Object → Option (List Object) → Option (List Object)
and_then o none = none
and_then o (some os) = some (o ∷ os)

-- A list of objects of a GRANT, as SQL defines it: names with their schemas, commas between them. The
-- number is the most objects that it may have.
unfoldable pub read_object_list : ℕ → String → Option (List Object)
read_object_list zero s = none
read_object_list (suc n) s = elim (read_identifier s) [
  | none ↦ none
  | some (schema, rest) ↦ elim rest [
    | [] ↦ none
    | c ∷ more ↦ elim (nat_eq (code c) b'.') [
      | false ↦ none
      | true ↦ elim (read_identifier more) [
        | none ↦ none
        | some (name, rest') ↦ elim rest' [
          | [] ↦ some ((schema, name) ∷ [])
          | c' ∷ more' ↦ elim (nat_eq (code c') b',') [
            | true ↦ and_then (schema, name) (read_object_list n more')
            | false ↦ none
          ]
        ]
      ]
    ]
  ]
]

read_last :
    (n : ℕ) (s more schema name : String)
    → read_identifier s ≡ some (schema, prepend "." more)
    → read_identifier more ≡ some (name, "")
    → read_object_list (suc n) s ≡ some ((schema, name) ∷ [])
unfolding read_object_list
read_last n s more schema name e f = ground arith

read_more :
    (n : ℕ) (s more schema name others : String)
    → read_identifier s ≡ some (schema, prepend "." more)
    → read_identifier more ≡ some (name, prepend "," others)
    → read_object_list (suc n) s ≡ and_then (schema, name) (read_object_list n others)
unfolding read_object_list
read_more n s more schema name others e f = ground arith

split_from-plain : (s : String) → Lacks b'(' s → split_from "(" 0 s ≡ s ∷ []
unfolding split_from has_prefix
split_from-plain [] h = refl
split_from-plain (c ∷ s) (h, hs) = ground (arith, split_from-plain s hs)

module _ ⦃pq : Pq⦄ where
  quote_identify_ident-plain :
      (s : String) → Lacks b'(' s → quote_identify_ident s ≡ pq.quote_identifier s
  unfolding quote_identify_ident split
  quote_identify_ident-plain s h = rw (split_from-plain s h) (append-nil (pq.quote_identifier s))

  object :
      (schema name rest : String)
      → NoNul schema
      → read_identifier ((pq.quote_identifier schema <> "." <> pq.quote_identifier name) <> rest)
        ≡ some (schema, prepend "." (pq.quote_identifier name <> rest))
  object schema name rest n =
      rw
        (
          append_assoc (pq.quote_identifier schema) ("." <> pq.quote_identifier name) rest,
          append_assoc "." (pq.quote_identifier name) rest,
          append-prepend "." (pq.quote_identifier name <> rest),
        )
        (read_identifier-quote_identifier schema (prepend "." (pq.quote_identifier name <> rest)) n
          (omega arith))

  behind :
      (name separator rest : String)
      → NoNul name
      → Ends (prepend separator rest)
      → read_identifier (pq.quote_identifier name <> separator <> rest)
        ≡ some (name, prepend separator rest)
  behind name separator rest n e =
      ap (λ r. read_identifier (pq.quote_identifier name <> r)) (append-prepend separator rest)
      ∙ read_identifier-quote_identifier name (prepend separator rest) n e

  behind_schema :
      (schema name : String)
      → NoNul schema
      → read_identifier (pq.quote_identifier schema <> "." <> pq.quote_identifier name)
        ≡ some (schema, prepend "." (pq.quote_identifier name))
  behind_schema schema name n = behind schema "." (pq.quote_identifier name) n (omega arith)

  -- For a schema and objects without zero bytes and without brackets in the names, of which there is
  -- one at least: the list that setToPgIdentList writes is a list of objects, and a server reads just
  -- those objects of that schema from it, in their order.
  pub read_object_list-set_to_pg_ident_list :
      (schema object : String) (objects : List String)
      → NoNul schema
      → All NoNul (object ∷ objects)
      → All (Lacks b'(') (object ∷ objects)
      → read_object_list (suc (length objects)) (set_to_pg_ident_list schema (object ∷ objects))
        ≡ some (map (λ name. (schema, name)) (object ∷ objects))
  unfolding set_to_pg_ident_list join
  read_object_list-set_to_pg_ident_list schema name [] n (m, _) (h, _) =
      rw (quote_identify_ident-plain name h) (
        read_last 0 _ (pq.quote_identifier name) schema name (behind_schema schema name n) (
          rw (← append-nil (pq.quote_identifier name))
            (read_identifier-quote_identifier name "" m tt)))
  read_object_list-set_to_pg_ident_list schema name (next ∷ objects) n (m, ms) (h, hs) =
      rw (quote_identify_ident-plain name h) (
        read_more (suc (length objects)) _ _ schema name _ (object schema name _ n)
          (behind name "," (set_to_pg_ident_list schema (next ∷ objects)) m (omega arith))
        ∙ ap (and_then (schema, name))
            (read_object_list-set_to_pg_ident_list schema next objects n ms hs))
