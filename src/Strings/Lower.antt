-- ===== src/Strings/Lower.antt =====
-- Which texts strings.ToLower leaves as they are.
use Prim.Native.String.{[], ◌∷◌, char_at}
use yb_terraform_provider_po.Prelude.{
  ℕ, zero, suc, String, Char, code, Bool, true, false, not, ◌&&◌, leb, nat_eq, ◌<◌, ◌-◌, ◌≡◌, refl,
  ap, arith, Bool-cases, inl, inr,
}
use yb_terraform_provider_po.Strings.{to_lower, lower_char}

abbrev pub is_upper : Char → Bool
is_upper c = leb b'A' (code c) && leb (code c) b'Z'

-- no upper-case letter of ASCII is in the text
unfoldable pub no_upper : String → Bool
no_upper [] = true
no_upper (c ∷ s) = not (is_upper c) && no_upper s

abbrev lower_case : String
lower_case = "abcdefghijklmnopqrstuvwxyz"

-- the first letters of `lower_case` have codes from that of 'a' on
unfoldable first_lower : ℕ → Bool
first_lower zero = true
first_lower (suc n) = leb b'a' (code (char_at lower_case n)) && first_lower n

first_lower-all : first_lower 26 ≡ true
unfolding first_lower
first_lower-all = refl

first_lower-leb :
    (n d : ℕ) → first_lower n ≡ true → d < n → leb b'a' (code (char_at lower_case d)) ≡ true
unfolding first_lower
first_lower-leb zero d h k = absurd (omega arith)
first_lower-leb (suc n) d h k = elim (Bool-cases (nat_eq d n)) [
  | inl same ↦ (let e : d ≡ n = ground arith in rw e (ground arith))
  | inr other ↦ first_lower-leb n d (ground arith) (ground arith)
]

lower_char-upper : (c : Char) → is_upper c ≡ true → nat_eq (code (lower_char c)) (code c) ≡ false
unfolding lower_char
lower_char-upper c h =
    ground (arith, first_lower-leb 26 (code c - b'A') first_lower-all (ground arith))

lower_char-other : (c : Char) → is_upper c ≡ false → lower_char c ≡ c
unfolding lower_char
lower_char-other c h = rw h refl

abbrev head : Char → String → Char
head other [] = other
head other (c ∷ s) = c

abbrev tail : String → String
tail [] = ""
tail (c ∷ s) = s

pub to_lower-kept : (s : String) → no_upper s ≡ true → to_lower s ≡ s
unfolding to_lower no_upper
to_lower-kept [] h = refl
to_lower-kept (c ∷ s) h =
    let same : lower_char c ≡ c = lower_char-other c (ground arith) in
    rw (same, to_lower-kept s (ground arith)) refl

pub to_lower-no_upper : (s : String) → to_lower s ≡ s → no_upper s ≡ true
unfolding to_lower no_upper
to_lower-no_upper [] h = refl
to_lower-no_upper (c ∷ s) h =
    let first : lower_char c ≡ c = ap (head c) h in
    let rest : to_lower s ≡ s = ap tail h in
    ground (arith, lower_char-upper c, to_lower-no_upper s rest, ap code first)
