-- ===== src/SecurityLabel/Identifier.antt =====
-- An identifier that quoteIdentifier has quoted where that is needed names the given object.
use Prim.Native.String.{[], ◌∷◌}
use mathlib.Core.List.{[], ◌∷◌}
use text.Mathlib.TextLemmas.{append-nil}
use yb_terraform_provider_po.Prelude.{
  String, Char, code, ◌≤◌, ◌⊎◌, true, ◌==◌, ◌≡◌, refl, sym, ap, ◌∙◌, Option, none, some, arith,
  eq_iff, Bool-cases, inl, inr, if◌then◌else◌,
}
use yb_terraform_provider_po.Strings.{to_lower}
use yb_terraform_provider_po.Strings.Lower.{no_upper, to_lower-kept, to_lower-no_upper}
use yb_terraform_provider_po.Postgres.{Pq, NoNul}
use yb_terraform_provider_po.Quote.Identifier.{read_identifier, read_identifier-quote_identifier}
use yb_terraform_provider_po.SecurityLabel.{matches_name, all_more, quote_identifier}

-- An identifier of SQL as a whole: quoted, or a bare word, which is folded to lower case. Key words are
-- not told apart.
unfoldable pub read_sql_name : String → Option String
read_sql_name s = elim (read_identifier s) [
  | some (name, rest) ↦ if rest == "" then some name else none
  | none ↦ if matches_name s then some (to_lower s) else none
]

read_identifier-bare : (s : String) → matches_name s ≡ true → read_identifier s ≡ none
unfolding read_identifier matches_name
read_identifier-bare [] h = refl
read_identifier-bare (c ∷ s) h = ground arith

read_quoted : (s name : String) → read_identifier s ≡ some (name, "") → read_sql_name s ≡ some name
unfolding read_sql_name
read_quoted s name h = rw (h, read_sql_name) refl

read_bare : (s : String) → matches_name s ≡ true → read_sql_name s ≡ some (to_lower s)
unfolding read_sql_name to_lower
read_bare s h = rw (read_identifier-bare s h, h, read_sql_name) refl

-- a lower-case letter or an underscore, and these and digits
abbrev pub IsLower : Char → Type 0
IsLower c = ((b'a' ≤ code c) × (code c ≤ b'z')) ⊎ (code c ≡ b'_')

abbrev pub AreMore : String → Type 0
AreMore [] = Unit
AreMore (c ∷ s) = (IsLower c ⊎ ((b'0' ≤ code c) × (code c ≤ b'9'))) × AreMore s

-- the names that SQL reads as they are without quotes, but for key words
abbrev pub IsBare : String → Type 0
IsBare [] = ⊥
IsBare (c ∷ s) = IsLower c × AreMore s

all_more-AreMore : (s : String) → all_more s ≡ true → no_upper s ≡ true → AreMore s
unfolding all_more no_upper
all_more-AreMore [] h n = tt
all_more-AreMore (c ∷ s) h n = (ground arith, all_more-AreMore s (ground arith) (ground arith))

matches_name-IsBare : (s : String) → matches_name s ≡ true → no_upper s ≡ true → IsBare s
unfolding matches_name no_upper
matches_name-IsBare [] h n = absurd (cc)
matches_name-IsBare (c ∷ s) h n = (ground arith, all_more-AreMore s (ground arith) (ground arith))

AreMore-cases : (s : String) → AreMore s → (all_more s ≡ true) × (no_upper s ≡ true)
unfolding all_more no_upper
AreMore-cases [] h = (refl, refl)
AreMore-cases (c ∷ s) (h, hs) = let (a, b) = AreMore-cases s hs in (ground arith, ground arith)

IsBare-cases : (s : String) → IsBare s → (matches_name s ≡ true) × (no_upper s ≡ true)
unfolding matches_name no_upper
IsBare-cases [] h = absurd h
IsBare-cases (c ∷ s) (h, hs) = let (a, b) = AreMore-cases s hs in (ground arith, ground arith)

module _ ⦃pq : Pq⦄ where
  quoted : (s : String) → NoNul s → read_sql_name (pq.quote_identifier s) ≡ some s
  quoted s n =
      read_quoted (pq.quote_identifier s) s
        (rw (← append-nil (pq.quote_identifier s)) (read_identifier-quote_identifier s "" n tt))

  -- a name stands bare, or in the quotes of lib/pq, by what it is made of
  abbrev pub IsQuotedIfNeeded : String → String → Type 0
  IsQuotedIfNeeded s q = (IsBare s × (q ≡ s)) ⊎ ((IsBare s → ⊥) × (q ≡ pq.quote_identifier s))

  quote_identifier-cases : (s : String) → IsQuotedIfNeeded s (quote_identifier s)
  unfolding quote_identifier
  quote_identifier-cases s = elim (Bool-cases (matches_name s)) [
    | inr e ↦ inr (λ b. (let (f, g) = IsBare-cases s b in absurd (cc)), rw e refl)
    | inl e ↦ elim (Bool-cases (s == to_lower s)) [
      | inl f ↦
          (let same : s ≡ to_lower s = ground (arith, eq_iff s (to_lower s)) in
            inl (matches_name-IsBare s e (to_lower-no_upper s (sym same)), rw (e, f) refl))
      | inr f ↦ inr (
        λ b.
            (let (g, h) = IsBare-cases s b in
              let same = to_lower-kept s h in
              let wrong : s == to_lower s ≡ true = ground (arith, eq_iff s (to_lower s), same) in
              absurd (cc)),
        rw (e, f) refl,
      )
    ]
  ]

  -- quoteIdentifier leaves a name bare exactly when it is made of lower-case letters, digits and
  -- underscores and does not begin with a digit, and otherwise puts it in the quotes of lib/pq, a dot in
  -- it included; and from either form of a name without a zero byte, a server that has no key word of
  -- this spelling reads the name itself.
  pub read_sql_name-quote_identifier :
      (s : String)
      → NoNul s
      → IsQuotedIfNeeded s (quote_identifier s) × (read_sql_name (quote_identifier s) ≡ some s)
  read_sql_name-quote_identifier s n = elim (quote_identifier-cases s) [
    | inl (bare, e) ↦
        (let (g, h) = IsBare-cases s bare in
          (inl (bare, e), rw e (read_bare s g ∙ ap some (to_lower-kept s h))))
    | inr (other, e) ↦ (inr (other, e), rw e (quoted s n))
  ]
