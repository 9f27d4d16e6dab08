-- ===== src/Strings/Laws.antt =====
-- Splitting undoes joining, and trimming undoes quoting.
use Prim.Native.String.{[], ◌∷◌}
use mathlib.Core.List.{[], ◌∷◌}
use yb_terraform_provider_po.Prelude.{
  ℕ, zero, suc, String, Char, code, false, Bool-cases, inl, inr, List, All, ◌<>◌, ◌≡◌, ◌≢◌, refl,
  ap, ◌∙◌, arith,
}
use yb_terraform_provider_po.Strings.{
  has_prefix, contains, split_from, split, join, cons_head, prepend, append-prepend, trim_left,
  trim_right, trim,
}

cons_head-ne-nil : (c : Char) (ps : List String) → cons_head c ps ≢ List.[]
cons_head-ne-nil c [] = cc
cons_head-ne-nil c (p ∷ ps) = cc

-- splitting gives a part at least
pub split_from-ne-nil : (sep : String) (k : ℕ) (s : String) → split_from sep k s ≢ List.[]
unfolding split_from
split_from-ne-nil sep k [] = cc
split_from-ne-nil sep (suc k) (c ∷ s) = split_from-ne-nil sep k s
split_from-ne-nil sep zero (c ∷ s) = elim (Bool-cases (has_prefix (String.◌∷◌ c s) sep)) [
  | inl cut ↦ rw cut (cc)
  | inr keep ↦ rw keep (cons_head-ne-nil c _)
]

-- the text has no `", "` in it
abbrev pub IsPart : String → Type 0
IsPart s = contains s ", " ≡ false

IsPart-tail : (c : Char) (s : String) → IsPart (c ∷ s) → IsPart s
unfolding contains
IsPart-tail c s h = ground arith

-- no separator begins with the last characters of a part and ends in the separator behind it
space_behind :
    (s t : String) → has_prefix s " " ≡ false → has_prefix (prepend s (prepend ", " t)) " " ≡ false
unfolding has_prefix
space_behind [] t h = refl
space_behind (c ∷ s) t h = h

part_head : (c : Char) (s : String) → IsPart (c ∷ s) → has_prefix (c ∷ s) ", " ≡ false
unfolding contains
part_head c s h = ground arith

part_head_behind :
    (c : Char) (s t : String)
    → IsPart (c ∷ s)
    → has_prefix (c ∷ prepend s (prepend ", " t)) ", " ≡ false
unfolding has_prefix
part_head_behind c s t h = ground (arith, part_head c s h, space_behind s t)

split_from-part : (s : String) → IsPart s → split_from ", " 0 s ≡ s ∷ []
unfolding split_from
split_from-part [] h = refl
split_from-part (c ∷ s) h = rw (part_head c s h, split_from-part s (IsPart-tail c s h)) refl

split_from-prepend :
    (s t : String)
    → IsPart s
    → split_from ", " 0 (prepend s (prepend ", " t)) ≡ s ∷ split_from ", " 0 t
unfolding split_from has_prefix
split_from-prepend [] t h = refl
split_from-prepend (c ∷ s) t h =
    rw (part_head_behind c s t h, split_from-prepend s t (IsPart-tail c s h)) refl

pub split-part : (s : String) → IsPart s → split s ", " ≡ s ∷ []
unfolding split
split-part = split_from-part

-- A list of texts without `", "` is what splitting its join gives.
pub split-join :
    (p : String) (ps : List String) → All IsPart (p ∷ ps) → split (join (p ∷ ps) ", ") ", " ≡ p ∷ ps
unfolding split join
split-join p [] (h, _) = split_from-part p h
split-join p (q ∷ ps) (h, hs) =
    rw (append-prepend p, append-prepend ", ")
      (split_from-prepend p _ h ∙ ap (λ l. p ∷ l) (split-join q ps hs))

abbrev pub Lacks : ℕ → String → Type 0
Lacks q [] = Unit
Lacks q (c ∷ s) = (code c ≢ q) × Lacks q s

trim_right-plain : (q : ℕ) (s : String) → Lacks q s → trim_right q s ≡ s
unfolding trim_right
trim_right-plain q [] h = refl
trim_right-plain q (c ∷ s) (h, hs) = ground (arith, trim_right-plain q s hs)

trim_left-plain : (q : ℕ) (s : String) → Lacks q s → trim_left q s ≡ s
unfolding trim_left
trim_left-plain q [] h = refl
trim_left-plain q (c ∷ s) (h, hs) = ground arith

pub trim-plain : (q : ℕ) (s : String) → Lacks q s → trim s q ≡ s
unfolding trim
trim-plain q s h = ap (trim_right q) (trim_left-plain q s h) ∙ trim_right-plain q s h

trim_right-prepend :
    (c : Char) (s : String) → Lacks (code c) s → trim_right (code c) (prepend s (c ∷ "")) ≡ s
unfolding trim_right
trim_right-prepend q [] h = ground arith
trim_right-prepend q (c ∷ s) (h, hs) = ground (arith, trim_right-prepend q s hs)

abbrev pub in_quotes : String → String
in_quotes s = "\"" <> s <> "\""

in_quotes-eq : (s : String) → in_quotes s ≡ prepend "\"" (prepend s "\"")
in_quotes-eq s = rw (append-prepend s, append-prepend "\"") refl

trim_left-prepend :
    (q : ℕ) (s t : String) → Lacks q s → s ≢ "" → trim_left q (prepend s t) ≡ prepend s t
unfolding trim_left
trim_left-prepend q [] t h n = absurd (n refl)
trim_left-prepend q (c ∷ s) t (h, hs) n = ground arith

-- Quotes around a text without quotes are what trimming takes away.
pub trim-in_quotes : (s : String) → Lacks b'"' s → trim (in_quotes s) b'"' ≡ s
unfolding trim trim_left trim_right
trim-in_quotes [] h = refl
trim-in_quotes (c ∷ s) h =
    rw (in_quotes-eq (c ∷ s), trim_left-prepend b'"' (c ∷ s) "\"" h (cc))
      (trim_right-prepend "\"" (c ∷ s) h)

contains-quote : (s : String) → IsPart s → IsPart (prepend s "\"")
unfolding contains has_prefix
contains-quote [] h = refl
contains-quote (c ∷ []) h = ground arith
contains-quote (c ∷ d ∷ s) h = ground (arith, contains-quote (d ∷ s) (IsPart-tail c (d ∷ s) h))

pub in_quotes-IsPart : (s : String) → IsPart s → IsPart (in_quotes s)
unfolding contains has_prefix
in_quotes-IsPart s h = rw (in_quotes-eq s) (contains-quote s h)
