-- ===== src/Strings.antt =====
-- The functions of Go's package `strings` that the provider calls, on texts of Unicode scalar values.
-- ToUpper and ToLower map the ASCII letters.
pub mod Laws
pub mod Lower
pub mod Decimal
use Prim.Native.String.{[], ◌∷◌, char_at, count}
use mathlib.Core.List.{[], ◌∷◌}
use text.Mathlib.TextLemmas.{nil-append, cons-append}
use yb_terraform_provider_po.Prelude.{
  ℕ, zero, suc, ◌-◌, String, Char, code, Bool, true, false, ◌&&◌, ◌||◌, List, leb, nat_eq, ◌<>◌,
  ◌==◌, ◌≡◌, refl, ap, ◌∙◌, if◌then◌else◌,
}

-- strings.HasPrefix
unfoldable pub has_prefix : String → String → Bool
has_prefix s [] = true
has_prefix [] (d ∷ p) = false
has_prefix (c ∷ s) (d ∷ p) = nat_eq (code c) (code d) && has_prefix s p

unfoldable pub drop : ℕ → String → String
drop zero s = s
drop (suc n) [] = []
drop (suc n) (c ∷ s) = drop n s

-- strings.TrimPrefix
unfoldable pub trim_prefix : String → String → String
unfolding has_prefix drop
trim_prefix s p = if has_prefix s p then drop (count p) s else s

-- strings.Contains
unfoldable pub contains : String → String → Bool
unfolding has_prefix
contains [] p = has_prefix [] p
contains (c ∷ s) p = has_prefix (c ∷ s) p || contains s p

abbrev pub cons_head : Char → List String → List String
cons_head c [] = String.◌∷◌ c String.[] ∷ []
cons_head c (p ∷ ps) = String.◌∷◌ c p ∷ ps

-- strings.Split for a separator that is not empty; the number counts what is left of a separator
-- that has been met
unfoldable pub split_from : String → ℕ → String → List String
unfolding has_prefix
split_from sep k [] = String.[] ∷ []
split_from sep (suc k) (c ∷ s) = split_from sep k s
split_from sep zero (c ∷ s) =
    let cut : List String = String.[] ∷ split_from sep (count sep - 1) s in
    let keep = cons_head c (split_from sep zero s) in if has_prefix (c ∷ s) sep then cut else keep

unfoldable pub split : String → String → List String
unfolding split_from
split s sep = split_from sep zero s

-- strings.Join
unfoldable pub join : List String → String → String
join [] sep = ""
join (p ∷ []) sep = p
join (p ∷ q ∷ ps) sep = p <> sep <> join (q ∷ ps) sep

-- concatenation, by clauses
abbrev pub prepend : String → String → String
prepend [] t = t
prepend (c ∷ s) t = c ∷ prepend s t

pub append-prepend : (s t : String) → s <> t ≡ prepend s t
append-prepend [] t = nil-append t
append-prepend (c ∷ s) t = cons-append c s t ∙ ap (String.◌∷◌ c) (append-prepend s t)

pub prepend-nil : (s : String) → prepend s "" ≡ s
prepend-nil [] = refl
prepend-nil (c ∷ s) = ap (String.◌∷◌ c) (prepend-nil s)

pub prepend_assoc : (s t u : String) → prepend (prepend s t) u ≡ prepend s (prepend t u)
prepend_assoc [] t u = refl
prepend_assoc (c ∷ s) t u = ap (String.◌∷◌ c) (prepend_assoc s t u)

-- strings.Replace(s, old, new, -1) for an `old` of one character
unfoldable pub replace : ℕ → String → String → String
replace old new [] = ""
replace old new (c ∷ s) =
    let rest = replace old new s in if nat_eq (code c) old then prepend new rest else c ∷ rest

pub trim_left : ℕ → String → String
trim_left q [] = ""
trim_left q (c ∷ s) = let rest = trim_left q s in if nat_eq (code c) q then rest else c ∷ s

pub trim_right : ℕ → String → String
trim_right q [] = ""
trim_right q (c ∷ s) =
    let rest = trim_right q s in if nat_eq (code c) q && rest == "" then "" else c ∷ rest

-- strings.Trim for a cutset of one character
unfoldable pub trim : String → ℕ → String
unfolding trim_left trim_right
trim s q = trim_right q (trim_left q s)

upper_char : Char → Char
upper_char c =
    if leb b'a' (code c) && leb (code c) b'z'
    then char_at "ABCDEFGHIJKLMNOPQRSTUVWXYZ" (code c - b'a')
    else c

lower_char : Char → Char
lower_char c =
    if leb b'A' (code c) && leb (code c) b'Z'
    then char_at "abcdefghijklmnopqrstuvwxyz" (code c - b'A')
    else c

-- strings.ToUpper
unfoldable pub to_upper : String → String
unfolding upper_char
to_upper [] = ""
to_upper (c ∷ s) = upper_char c ∷ to_upper s

-- strings.ToLower
unfoldable pub to_lower : String → String
unfolding lower_char
to_lower [] = ""
to_lower (c ∷ s) = lower_char c ∷ to_lower s

split_list : split "a, \"b\", c" ", " ≡ "a" ∷ "\"b\"" ∷ "c" ∷ []
unfolding split
split_list = refl

join_list : join ("a" ∷ "b" ∷ "c" ∷ []) "_" ≡ "a_b_c"
unfolding join
join_list = refl

trim_quotes : trim "\"a\"b\"\"" b'"' ≡ "a\"b"
unfolding trim
trim_quotes = refl

upper_table : to_upper "foreign_Table1" ≡ "FOREIGN_TABLE1"
unfolding to_upper
upper_table = refl

trim_config : trim_prefix "role=admin" "role=" ≡ "admin"
unfolding trim_prefix
trim_config = refl
