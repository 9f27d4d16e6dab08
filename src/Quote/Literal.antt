-- ===== src/Quote/Literal.antt =====
-- What a server reads where the provider has put a quoted literal between single quotes.
use Prim.Native.String.{[], ◌∷◌}
use text.Mathlib.TextEquality.{Char-path}
use yb_terraform_provider_po.Prelude.{
  ℕ, String, Char, code, ◌<>◌, ◌≡◌, ◌≢◌, refl, Option, none, some, arith, nat_eq, if◌then◌else◌,
}
use yb_terraform_provider_po.Strings.{replace, prepend, append-prepend}
use yb_terraform_provider_po.Quote.{pq_quote_literal}

abbrev pub quote : ℕ
quote = b'\''

abbrev pub backslash : ℕ
backslash = b'\\'

abbrev pub onto : Char → Option (String × String) → Option (String × String)
onto c none = none
onto c (some (s, rest)) = some (c ∷ s, rest)

-- A literal behind its opening quote, as SQL defines it (standard_conforming_strings): its value, and
-- the text behind the closing quote. A doubled quote is one quote.
unfoldable pub read_standard : String → Option (String × String)
read_standard [] = none
read_standard (c ∷ []) = if nat_eq (code c) quote then some ("", "") else none
read_standard (c ∷ d ∷ s) =
    let double = onto c (read_standard s) in
    let longer = onto c (read_standard (d ∷ s)) in
    if nat_eq (code c) quote
    then (if nat_eq (code d) quote then double else some ("", d ∷ s))
    else longer

-- The same with backslash escapes (standard_conforming_strings off, or E'…'): a backslash takes the
-- next character as it is. The escapes by a letter or a digit are not described: `none`.
unfoldable pub read_escape : String → Option (String × String)
read_escape [] = none
read_escape (c ∷ []) = if nat_eq (code c) quote then some ("", "") else none
read_escape (c ∷ d ∷ s) =
    let double = onto c (read_escape s) in
    let longer = onto c (read_escape (d ∷ s)) in
    let escaped = onto d (read_escape s) in
    if nat_eq (code c) quote
    then (if nat_eq (code d) quote then double else some ("", d ∷ s))
    else if nat_eq (code c) backslash
    then (if nat_eq (code d) backslash then escaped else none)
    else longer

-- the text behind a literal does not go on with a quote
abbrev pub Ends : String → Type 0
Ends [] = Unit
Ends (c ∷ s) = code c ≢ quote

close_standard : (rest : String) → Ends rest → read_standard (prepend "'" rest) ≡ some ("", rest)
unfolding read_standard
close_standard [] h = refl
close_standard (c ∷ rest) h = ground arith

close_escape : (rest : String) → Ends rest → read_escape (prepend "'" rest) ≡ some ("", rest)
unfolding read_escape
close_escape [] h = refl
close_escape (c ∷ rest) h = ground arith

-- what pqQuoteLiteral writes for one character
abbrev quoted_char : Char → String → String
quoted_char c t =
    if nat_eq (code c) quote
    then "'" ∷ "'" ∷ t
    else if nat_eq (code c) backslash
    then "\\" ∷ "\\" ∷ t
    else c ∷ t

pq_quote_literal-cons :
    (c : Char) (s : String) → pq_quote_literal (c ∷ s) ≡ quoted_char c (pq_quote_literal s)
unfolding pq_quote_literal
pq_quote_literal-cons c s = ground arith

prepend-quoted_char :
    (c : Char) (s t : String) → prepend (quoted_char c s) t ≡ quoted_char c (prepend s t)
prepend-quoted_char c s t = ground arith

read_escape-quoted_char :
    (c d : Char) (t : String) → read_escape (quoted_char c (d ∷ t)) ≡ onto c (read_escape (d ∷ t))
unfolding read_escape
read_escape-quoted_char c d t = ground (arith, Char-path c "'", Char-path c "\\")

-- a text that ends in a quote is not empty
prepend-cons :
    (s rest : String) → (d : Char) × (t : String) × (prepend s (prepend "'" rest) ≡ d ∷ t)
prepend-cons [] rest = ("'", rest, refl)
prepend-cons (c ∷ s) rest = (c, prepend s (prepend "'" rest), refl)

read_escape-prepend :
    (s rest : String)
    → Ends rest
    → read_escape (prepend (pq_quote_literal s) (prepend "'" rest)) ≡ some (s, rest)
read_escape-prepend [] rest h = unfold pq_quote_literal in close_escape rest h
read_escape-prepend (c ∷ s) rest h =
    let (d, t, e) = prepend-cons (pq_quote_literal s) rest in
    rw (pq_quote_literal-cons c s, prepend-quoted_char c, e, read_escape-quoted_char c d t)
      (rw (← e) (rw (read_escape-prepend s rest h)))

-- The server reads back the very text that pqQuoteLiteral was given, and goes on behind the closing
-- quote, where it takes a backslash for an escape and what follows does not begin with a quote.
pub read_escape-pq_quote_literal :
    (s rest : String) → Ends rest → read_escape (pq_quote_literal s <> "'" <> rest) ≡ some (s, rest)
read_escape-pq_quote_literal s rest h =
    rw (append-prepend (pq_quote_literal s), append-prepend "'" rest) (read_escape-prepend s rest h)

abbrev doubled : String → String
doubled s = replace b'\\' "\\\\" s

abbrev onto_doubled : Char → Option (String × String) → Option (String × String)
onto_doubled c o = if nat_eq (code c) backslash then onto c (onto c o) else onto c o

read_standard-quoted_char :
    (c d : Char) (t : String)
    → read_standard (quoted_char c (d ∷ t)) ≡ onto_doubled c (read_standard (d ∷ t))
unfolding read_standard
read_standard-quoted_char c d t = ground (arith, Char-path c "'", Char-path c "\\")

onto_doubled-some :
    (c : Char) (s rest : String)
    → onto_doubled c (some (doubled s, rest)) ≡ some (doubled (c ∷ s), rest)
unfolding replace
onto_doubled-some c s rest = ground (arith, Char-path c "\\")

read_standard-prepend :
    (s rest : String)
    → Ends rest
    → read_standard (prepend (pq_quote_literal s) (prepend "'" rest)) ≡ some (doubled s, rest)
read_standard-prepend [] rest h = unfold pq_quote_literal replace in close_standard rest h
read_standard-prepend (c ∷ s) rest h =
    let (d, t, e) = prepend-cons (pq_quote_literal s) rest in
    rw (pq_quote_literal-cons c s, prepend-quoted_char c, e, read_standard-quoted_char c d t)
      (rw (← e) (rw (read_standard-prepend s rest h) (onto_doubled-some c s rest)))

-- Where the server takes a backslash as it is and what follows does not begin with a quote, the
-- literal still ends at the closing quote, and its value is the text with every backslash doubled.
pub read_standard-pq_quote_literal :
    (s rest : String)
    → Ends rest
    → read_standard (pq_quote_literal s <> "'" <> rest) ≡ some (replace b'\\' "\\\\" s, rest)
read_standard-pq_quote_literal s rest h =
    rw (append-prepend (pq_quote_literal s), append-prepend "'" rest)
      (read_standard-prepend s rest h)
