-- ===== src/Quote/Identifier.antt =====
-- What a server reads where the provider has put quoted identifiers.
use Prim.Native.String.{[], ◌∷◌}
use mathlib.Core.List.{[], ◌∷◌}
use text.Mathlib.TextEquality.{Char-path}
use text.Mathlib.TextLemmas.{append_assoc}
use yb_terraform_provider_po.Prelude.{
  ℕ, String, Char, code, ◌<>◌, ◌≡◌, ◌≢◌, refl, Option, none, some, arith, nat_eq, if◌then◌else◌,
}
use yb_terraform_provider_po.Strings.{replace, prepend, append-prepend}
use yb_terraform_provider_po.Postgres.{Pq, NoNul}

abbrev pub double_quote : ℕ
double_quote = b'"'

abbrev pub onto : Char → Option (String × String) → Option (String × String)
onto c none = none
onto c (some (s, rest)) = some (String.◌∷◌ c s, rest)

-- A quoted identifier behind its opening quote, as SQL defines it: its name, and the text behind the
-- closing quote. A doubled quote is one quote.
unfoldable pub read_name : String → Option (String × String)
read_name [] = none
read_name (c ∷ []) = if nat_eq (code c) double_quote then some ("", "") else none
read_name (c ∷ d ∷ s) =
    let double = onto c (read_name s) in
    let longer = onto c (read_name (String.◌∷◌ d s)) in
    if nat_eq (code c) double_quote
    then (if nat_eq (code d) double_quote then double else some ("", String.◌∷◌ d s))
    else longer

unfoldable pub read_identifier : String → Option (String × String)
unfolding read_name
read_identifier [] = none
read_identifier (c ∷ s) = if nat_eq (code c) double_quote then read_name s else none

-- the text behind an identifier does not go on with a double quote
abbrev pub Ends : String → Type 0
Ends [] = Unit
Ends (c ∷ s) = code c ≢ double_quote

abbrev doubled : String → String
doubled s = replace double_quote "\"\"" s

read_name_close : (rest : String) → Ends rest → read_name (prepend "\"" rest) ≡ some ("", rest)
unfolding read_name
read_name_close [] h = refl
read_name_close (c ∷ rest) h = ground arith

abbrev doubled_char : Char → String → String
doubled_char c t =
    if nat_eq (code c) double_quote then String.◌∷◌ "\"" (String.◌∷◌ "\"" t) else String.◌∷◌ c t

doubled-cons : (c : Char) (s : String) → doubled (String.◌∷◌ c s) ≡ doubled_char c (doubled s)
unfolding replace
doubled-cons c s = ground arith

prepend-doubled_char :
    (c : Char) (s t : String) → prepend (doubled_char c s) t ≡ doubled_char c (prepend s t)
prepend-doubled_char c s t = ground arith

read_name-doubled_char :
    (c d : Char) (t : String)
    → read_name (doubled_char c (String.◌∷◌ d t)) ≡ onto c (read_name (String.◌∷◌ d t))
unfolding read_name
read_name-doubled_char c d t = ground (arith, Char-path c "\"")

prepend-cons :
    (s rest : String) → (d : Char) × (t : String) × (prepend s (prepend "\"" rest) ≡ String.◌∷◌ d t)
prepend-cons [] rest = ("\"", rest, refl)
prepend-cons (c ∷ s) rest = (c, prepend s (prepend "\"" rest), refl)

pub read_name-prepend :
    (s rest : String)
    → Ends rest
    → read_name (prepend (doubled s) (prepend "\"" rest)) ≡ some (s, rest)
read_name-prepend [] rest h = unfold replace in read_name_close rest h
read_name-prepend (c ∷ s) rest h =
    let (d, t, e) = prepend-cons (doubled s) rest in
    rw (doubled-cons c s, prepend-doubled_char c, e, read_name-doubled_char c d t)
      (rw (← e) (rw (read_name-prepend s rest h)))

-- The quoted form that lib/pq documents.
abbrev pub plain_quote : String → String
plain_quote s = "\"" <> replace double_quote "\"\"" s <> "\""

pub read_identifier-plain_quote :
    (s rest : String) → Ends rest → read_identifier (plain_quote s <> rest) ≡ some (s, rest)
unfolding read_identifier
read_identifier-plain_quote s rest h =
    rw
      (
        append_assoc "\"" (doubled s <> "\"") rest,
        append_assoc (doubled s) "\"" rest,
        append-prepend "\"" rest,
        append-prepend (doubled s),
        append-prepend "\"",
      )
      (read_name-prepend s rest h)

module _ ⦃pq : Pq⦄ where
  pub read_identifier-quote_identifier :
      (s rest : String)
      → NoNul s
      → Ends rest
      → read_identifier (pq.quote_identifier s <> rest) ≡ some (s, rest)
  read_identifier-quote_identifier s rest n h =
      rw (pq.quote_identifier_lem s n) (read_identifier-plain_quote s rest h)
