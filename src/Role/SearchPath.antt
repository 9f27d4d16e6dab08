-- ===== src/Role/SearchPath.antt =====
-- The search path of a role, as alterSearchPath accepts it and readSearchPath reads it back.
use yb_terraform_provider_po.Prelude.{
  String, false, List, [], ◌∷◌, ◌++◌, map, All, ◌<>◌, ◌≡◌, ◌≢◌, ◌⊎◌, inl, inr, refl, ap, ◌∙◌, arith,
}
use yb_terraform_provider_po.Prelude.Result.{ok, Result-cases}
use yb_terraform_provider_po.Strings.{has_prefix, trim_prefix, join, trim, append-prepend, drop}
use yb_terraform_provider_po.Strings.Laws.{
  IsPart, Lacks, split-join, trim-plain, trim-in_quotes, in_quotes, in_quotes-IsPart,
}
use yb_terraform_provider_po.Postgres.{Pq}
use yb_terraform_provider_po.Role.Settings.{quote_parts}
use yb_terraform_provider_po.Role.Read.{read_search_path}

-- The server stores each schema of a search path as it is or, where it needs them, in double quotes.
abbrev pub IsStored : List String → List String → Type 0
IsStored [] [] = Unit
IsStored (s ∷ stored) (p ∷ parts) = ((s ≡ p) ⊎ (s ≡ in_quotes p)) × IsStored stored parts
IsStored _ _ = ⊥

-- no setting before it is one of the search path
abbrev pub IsOther : String → Type 0
IsOther config = has_prefix config "search_path" ≡ false

module _ ⦃pq : Pq⦄ where
  quote_parts-cons :
      (p : String) (parts quoted : List String)
      → quote_parts (p ∷ parts) ≡ ok quoted
      → IsPart p × (rest : List String) × (quote_parts parts ≡ ok rest)
  unfolding quote_parts
  quote_parts-cons p parts quoted h = elim (Result-cases (quote_parts parts)) [
    | inl (rest, e) ↦ (ground arith, rest, e)
    | inr (x, e) ↦ absurd (ground (arith, e))
  ]

  parts-IsPart : (parts quoted : List String) → quote_parts parts ≡ ok quoted → All IsPart parts
  parts-IsPart [] quoted h = tt
  parts-IsPart (p ∷ parts) quoted h =
      let (part, rest, e) = quote_parts-cons p parts quoted h in (part, parts-IsPart parts rest e)

stored-IsPart :
    (stored parts : List String) → IsStored stored parts → All IsPart parts → All IsPart stored
stored-IsPart [] [] s h = tt
stored-IsPart [] (p ∷ parts) s h = absurd s
stored-IsPart (x ∷ stored) [] s h = absurd s
stored-IsPart (x ∷ stored) (p ∷ parts) (inl e, s) (h, hs) =
    (rw e h, stored-IsPart stored parts s hs)
stored-IsPart (x ∷ stored) (p ∷ parts) (inr e, s) (h, hs) =
    (rw e (in_quotes-IsPart p h), stored-IsPart stored parts s hs)

trim-stored :
    (stored parts : List String)
    → IsStored stored parts
    → All (Lacks b'"') parts
    → map (λ part. trim part b'"') stored ≡ parts
trim-stored [] [] s h = refl
trim-stored [] (p ∷ parts) s h = absurd s
trim-stored (x ∷ stored) [] s h = absurd s
trim-stored (x ∷ stored) (p ∷ parts) (inl e, s) (h, hs) =
    rw (e, trim-plain b'"' p h, trim-stored stored parts s hs) refl
trim-stored (x ∷ stored) (p ∷ parts) (inr e, s) (h, hs) =
    rw (e, trim-in_quotes p h, trim-stored stored parts s hs) refl

stored_none : (parts : List String) → IsStored [] parts → parts ≡ []
stored_none [] s = refl
stored_none (p ∷ parts) s = absurd s

read_stored :
    (x : String) (stored config : List String)
    → All IsPart (x ∷ stored)
    → read_search_path (("search_path=" <> join (x ∷ stored) ", ") ∷ config)
      ≡ map (λ part. trim part b'"') (x ∷ stored)
unfolding read_search_path has_prefix trim_prefix drop
read_stored x stored config h =
    rw (append-prepend "search_path=") (ap (map (λ part. trim part b'"')) (split-join x stored h))

skip_others :
    (before config : List String)
    → All IsOther before
    → read_search_path (before ++ config) ≡ read_search_path config
unfolding read_search_path
skip_others [] config h = refl
skip_others (b ∷ before) config (h, hs) = rw (h, skip_others before config hs) refl

module _ ⦃pq : Pq⦄ where
  -- The search path that alterSearchPath accepts is the one that readSearchPath reads back from the
  -- role's settings, when it is not empty, no schema's name has a double quote in it, and the server
  -- stores each name plain or in double quotes: wherever its entry stands, as long as no setting
  -- before it begins with "search_path".
  pub read_search_path-quote_parts :
      (parts quoted stored before after : List String)
      → parts ≢ []
      → quote_parts parts ≡ ok quoted
      → All (Lacks b'"') parts
      → IsStored stored parts
      → All IsOther before
      → read_search_path (before ++ (("search_path=" <> join stored ", ") ∷ after)) ≡ parts
  read_search_path-quote_parts parts quoted [] before after n q l s o =
      absurd (n (stored_none parts s))
  read_search_path-quote_parts parts quoted (x ∷ stored) before after n q l s o =
      skip_others before _ o
      ∙ read_stored x stored after
          (stored-IsPart (x ∷ stored) parts s (parts-IsPart parts quoted q))
      ∙ trim-stored (x ∷ stored) parts s l
