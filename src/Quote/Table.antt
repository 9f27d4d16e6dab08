-- ===== src/Quote/Table.antt =====
-- A quoted table name names the parts of the given name.
use Prim.Native.String.{[], ◌∷◌}
use mathlib.Core.List.{[], ◌∷◌}
use text.Mathlib.TextLemmas.{append-nil}
use yb_terraform_provider_po.Prelude.{
  ℕ, zero, suc, String, Char, code, List, map, length, All, ◌<>◌, ◌≡◌, ◌≢◌, refl, ap, ◌∙◌, Option,
  none, some, arith, nat_eq, ◌+◌, Bool-cases, inl, inr, if◌then◌else◌,
}
use yb_terraform_provider_po.Strings.{
  has_prefix, split_from, split, join, cons_head, prepend, append-prepend,
}
use yb_terraform_provider_po.Strings.Laws.{split_from-ne-nil}
use yb_terraform_provider_po.Postgres.{Pq, NoNul}
use yb_terraform_provider_po.Quote.{quote_table_name}
use yb_terraform_provider_po.Quote.Identifier.{read_identifier, read_identifier-quote_identifier}

abbrev and_then : String → Option (List String) → Option (List String)
and_then p none = none
and_then p (some ps) = some (p ∷ ps)

-- what follows the first name, where `more` reads what is behind a dot
abbrev read_behind :
    (String → Option (List String)) → Option (String × String) → Option (List String)
read_behind more none = none
read_behind more (some (p, [])) = some (p ∷ [])
read_behind more (some (p, c ∷ rest)) =
    if nat_eq (code c) b'.' then and_then p (more rest) else none

-- A qualified name, as SQL defines it: quoted identifiers with dots between them, and nothing behind.
-- The number is the most parts that it may have.
unfoldable pub read_path : ℕ → String → Option (List String)
read_path zero s = none
read_path (suc n) s = read_behind (λ rest. read_path n rest) (read_identifier s)

read_path_last :
    (n : ℕ) (s p : String) → read_identifier s ≡ some (p, "") → read_path (suc n) s ≡ some (p ∷ [])
unfolding read_path
read_path_last n s p e = ground arith

read_path_more :
    (n : ℕ) (s p more : String)
    → read_identifier s ≡ some (p, prepend "." more)
    → read_path (suc n) s ≡ and_then p (read_path n more)
unfolding read_path
read_path_more n s p more e = ground arith

module _ ⦃pq : Pq⦄ where
  pub read_path-join :
      (p : String) (ps : List String)
      → NoNul p
      → All NoNul ps
      → read_path (suc (length ps)) (join (map pq.quote_identifier (p ∷ ps)) ".") ≡ some (p ∷ ps)
  unfolding join
  read_path-join p [] n _ =
      read_path_last 0 _ p
        (rw (← append-nil (pq.quote_identifier p)) (read_identifier-quote_identifier p "" n tt))
  read_path-join p (q ∷ ps) n (m, ns) =
      let more = join (map pq.quote_identifier (q ∷ ps)) "." in
      read_path_more (suc (length ps)) _ p more (
        ap (λ r. read_identifier (pq.quote_identifier p <> r)) (append-prepend "." more)
        ∙ read_identifier-quote_identifier p (prepend "." more) n (omega arith))
      ∙ ap (and_then p) (read_path-join q ps m ns)

cons_head-NoNul :
    (c : Char) (ps : List String) → code c ≢ 0 → All NoNul ps → All NoNul (cons_head c ps)
cons_head-NoNul c [] n h = ((n, tt), tt)
cons_head-NoNul c (p ∷ ps) n (h, hs) = ((n, h), hs)

split_from-NoNul : (sep : String) (k : ℕ) (s : String) → NoNul s → All NoNul (split_from sep k s)
unfolding split_from
split_from-NoNul sep k [] n = (tt, tt)
split_from-NoNul sep (suc k) (c ∷ s) (n, ns) = split_from-NoNul sep k s ns
split_from-NoNul sep zero (c ∷ s) (n, ns) = elim (Bool-cases (has_prefix (String.◌∷◌ c s) sep)) [
  | inl cut ↦ rw cut (tt, split_from-NoNul sep _ s ns)
  | inr keep ↦ rw keep (cons_head-NoNul c _ n (split_from-NoNul sep zero s ns))
]

module _ ⦃pq : Pq⦄ where
  path_of_parts :
      (parts : List String)
      → parts ≢ []
      → All NoNul parts
      → read_path (length parts) (join (map pq.quote_identifier parts) ".") ≡ some parts
  path_of_parts [] h n = absurd (h refl)
  path_of_parts (p ∷ ps) h (n, ns) = read_path-join p ps n ns

  -- However many dots a table name without a zero byte has: the quoted name is a qualified name, and
  -- a server reads from it just the parts of the given name between its dots.
  pub read_path-quote_table_name :
      (table_name : String)
      → NoNul table_name
      → read_path (length (split table_name ".")) (quote_table_name table_name)
        ≡ some (split table_name ".")
  unfolding quote_table_name
  read_path-quote_table_name table_name n =
      path_of_parts (split_from "." zero table_name) (split_from-ne-nil "." zero table_name)
        (split_from-NoNul "." zero table_name n)

and_then_mono :
    (p : String) (o o' : Option (List String)) (ps : List String)
    → ((qs : List String) → o ≡ some qs → o' ≡ some qs)
    → and_then p o ≡ some ps
    → and_then p o' ≡ some ps
and_then_mono p none o' ps h e = absurd (cc)
and_then_mono p (some qs) o' ps h e = rw (h qs refl) e

read_behind_mono :
    (f g : String → Option (List String))
    → ((s : String) (ps : List String) → f s ≡ some ps → g s ≡ some ps)
    → (o : Option (String × String)) (ps : List String) → read_behind f o ≡ some ps
    → read_behind g o ≡ some ps
read_behind_mono f g m none ps h = absurd (cc)
read_behind_mono f g m (some (p, [])) ps h = h
read_behind_mono f g m (some (p, c ∷ rest)) ps h = elim (Bool-cases (nat_eq (code c) b'.')) [
  | inl e ↦ rw e (and_then_mono p (f rest) (g rest) ps (m rest) (rw e at h))
  | inr e ↦ absurd (let h' = rw e at h in cc)
]

-- what is read with some fuel is read with more
read_path-suc :
    (n : ℕ) (s : String) (ps : List String)
    → read_path n s ≡ some ps
    → read_path (suc n) s ≡ some ps
unfolding read_path
read_path-suc zero s ps h = absurd (cc)
read_path-suc (suc n) s ps h =
    read_behind_mono (λ rest. read_path n rest) (λ rest. read_path (suc n) rest) (read_path-suc n)
      (read_identifier s) ps h

none_more : (n : ℕ) → n + 0 ≡ n
none_more n = omega arith

one_more : (n k : ℕ) → n + suc k ≡ suc (n + k)
one_more n k = omega arith

read_path-add :
    (k n : ℕ) (s : String) (ps : List String)
    → read_path n s ≡ some ps
    → read_path (n + k) s ≡ some ps
read_path-add zero n s ps h = rw (none_more n) h
read_path-add (suc k) n s ps h =
    rw (one_more n k) (read_path-suc (n + k) s ps (read_path-add k n s ps h))

module _ ⦃pq : Pq⦄ where
  -- the quoted names of tables are different for different tables
  pub quote_table_name_inj :
      (a b : String)
      → NoNul a
      → NoNul b
      → quote_table_name a ≡ quote_table_name b
      → split a "." ≡ split b "."
  quote_table_name_inj a b na nb e =
      let n = length (split a ".") in
      let k = length (split b ".") in
      let pa =
        read_path-add k n (quote_table_name a) (split a ".") (read_path-quote_table_name a na) in
      let pb =
        read_path-add n k (quote_table_name b) (split b ".") (read_path-quote_table_name b nb) in
      let swap : n + k ≡ k + n = omega arith in cc
