-- ===== src/Qualified/Laws.antt =====
-- An id is split into the parts that it was joined from.
use Prim.Native.String.{[], ◌∷◌}
use mathlib.Core.List.{[], ◌∷◌}
use text.Mathlib.TextEquality.{Char-path}
use yb_terraform_provider_po.Prelude.{
  zero, String, Char, code, true, false, List, All, ◌<>◌, ◌≡◌, ◌≢◌, ◌↔◌, refl, ap, ◌∙◌, sym, arith,
  some, nat_eq, Bool-cases, inl, inr,
}
use yb_terraform_provider_po.Strings.{
  has_prefix, split_from, split, join, cons_head, prepend, append-prepend,
}
use yb_terraform_provider_po.Strings.Laws.{Lacks, split_from-ne-nil}
use yb_terraform_provider_po.Qualified.{qualified_id, two_parts, parse_id}

dot_head : (c : Char) (s : String) → has_prefix (c ∷ s) "." ≡ nat_eq (code c) b'.'
unfolding has_prefix
dot_head c [] = ground arith
dot_head c (d ∷ s) = ground arith

split-plain : (s : String) → Lacks b'.' s → split_from "." zero s ≡ s ∷ []
unfolding split_from
split-plain [] h = refl
split-plain (c ∷ s) (n, h) =
    let e : has_prefix (c ∷ s) "." ≡ false = dot_head c s ∙ ground arith in
    rw (e, split-plain s h) refl

split-prepend :
    (a t : String)
    → Lacks b'.' a
    → split_from "." zero (prepend a (prepend "." t)) ≡ a ∷ split_from "." zero t
unfolding split_from has_prefix
split-prepend [] t h = refl
split-prepend (c ∷ a) t (n, h) =
    let e : has_prefix (c ∷ prepend a (prepend "." t)) "." ≡ false =
      dot_head c (prepend a (prepend "." t)) ∙ ground arith in
    rw (e, split-prepend a t h) refl

-- joining by dots, by clauses
abbrev dotted : List String → String
dotted [] = ""
dotted (p ∷ []) = p
dotted (p ∷ q ∷ ps) = prepend p (prepend "." (dotted (q ∷ ps)))

dotted-cons_head :
    (c : Char) (ps : List String) → dotted (cons_head c ps) ≡ String.◌∷◌ c (dotted ps)
dotted-cons_head c [] = refl
dotted-cons_head c (p ∷ []) = refl
dotted-cons_head c (p ∷ q ∷ ps) = refl

dotted-cut : (ps : List String) → ps ≢ [] → dotted ("" ∷ ps) ≡ prepend "." (dotted ps)
dotted-cut [] h = absurd (h refl)
dotted-cut (p ∷ ps) h = refl

is_dot : (c : Char) → nat_eq (code c) b'.' ≡ true → (s : String) → prepend "." s ≡ String.◌∷◌ c s
is_dot c h s =
    ap (λ d. String.◌∷◌ d s) (Char-path (Prim.Native.String.char_at "." 0) c (ground arith))

dotted-split : (s : String) → dotted (split_from "." zero s) ≡ s
unfolding split_from
dotted-split [] = refl
dotted-split (c ∷ s) = elim (Bool-cases (nat_eq (code c) b'.')) [
  | inl e ↦ rw (dot_head c s ∙ e) (
      dotted-cut (split_from "." zero s) (split_from-ne-nil "." zero s)
      ∙ ap (prepend ".") (dotted-split s)
      ∙ is_dot c e s)
  | inr e ↦
      rw (dot_head c s ∙ e)
        (dotted-cons_head c (split_from "." zero s) ∙ ap (String.◌∷◌ c) (dotted-split s))
]

pub split_inj : (a b : String) → split a "." ≡ split b "." → a ≡ b
unfolding split
split_inj a b e = sym (dotted-split a) ∙ ap dotted e ∙ dotted-split b

cons_head-Lacks :
    (c : Char) (ps : List String)
    → code c ≢ b'.'
    → All (Lacks b'.') ps
    → All (Lacks b'.') (cons_head c ps)
cons_head-Lacks c [] n h = ((n, tt), tt)
cons_head-Lacks c (p ∷ ps) n (h, hs) = ((n, h), hs)

split-Lacks : (s : String) → All (Lacks b'.') (split_from "." zero s)
unfolding split_from
split-Lacks [] = (tt, tt)
split-Lacks (c ∷ s) = elim (Bool-cases (nat_eq (code c) b'.')) [
  | inl e ↦ rw (dot_head c s ∙ e) (tt, split-Lacks s)
  | inr e ↦ rw (dot_head c s ∙ e) (cons_head-Lacks c _ (ground arith) (split-Lacks s))
]

two_parts-eq : (ps : List String) (a b : String) → two_parts ps ≡ some (a, b) → ps ≡ a ∷ b ∷ []
two_parts-eq [] a b h = absurd (cc)
two_parts-eq (p ∷ []) a b h = absurd (cc)
two_parts-eq (p ∷ q ∷ []) a b h = ground arith
two_parts-eq (p ∷ q ∷ r ∷ ps) a b h = absurd (cc)

qualified_id-eq : (a b : String) → qualified_id a b ≡ prepend a (prepend "." b)
unfolding qualified_id join
qualified_id-eq a b = append-prepend a ("." <> b) ∙ ap (prepend a) (append-prepend "." b)

-- An id is parsed as a database and a name exactly when it is the two joined by a dot and neither has
-- a dot in it.
pub parse_id_iff :
    (id database name : String)
    → (parse_id id ≡ some (database, name))
      ↔ ((id ≡ qualified_id database name) × Lacks b'.' database × Lacks b'.' name)
unfolding parse_id split
parse_id_iff id a b = (
  λ h.
      let e = two_parts-eq (split_from "." zero id) a b h in
      let parts = split-Lacks id in
      let (la, (lb, _)) = rw e at parts in
      (sym (dotted-split id) ∙ ap dotted e ∙ sym (qualified_id-eq a b), la, lb),
  λ (e, la, lb). rw (e ∙ qualified_id-eq a b, split-prepend a b la, split-plain b lb) refl,
)
