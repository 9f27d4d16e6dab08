-- ===== src/Prelude/Int.antt =====
-- Go's `int`, as an integer, with the decimal print of `%d` and the parse of `strconv.Atoi`.
use Prim.Native.Nat.{ℕ, zero, suc, ◌+◌, ◌-◌, ◌*◌, ◌/◌, ◌%◌, ◌^◌}
use Prim.Native.Char.{code}
use Prim.Native.String.{String, [], ◌∷◌, char_at}
use mathlib.Core.Path.{◌≡◌, refl}
use mathlib.Core.Bool.{Bool, true, false, ◌&&◌}
use yb_terraform_provider_po.Prelude.Tests.{ltb, leb, nat_eq, ◌<>◌, if◌then◌else◌}
use yb_terraform_provider_po.Prelude.Result.{Result, ok, err}

-- `negsuc n` is -(n + 1).
pub data ℤ : Type 0 where
  pos : ℕ → ℤ
  negsuc : ℕ → ℤ

abbrev pub is_zero : ℤ → Bool
is_zero (pos zero) = true
is_zero (pos (suc n)) = false
is_zero (negsuc n) = false

abbrev pub digit : ℕ → String
digit d = char_at "0123456789" d ∷ []

-- the digits of a number, on fuel above the number
unfoldable pub digits : ℕ → ℕ → String
digits zero n = []
digits (suc f) n =
    let front = digits f (n / 10) in if ltb n 10 then digit n else front <> digit (n % 10)

unfoldable pub itoa : ℤ → String
unfolding digits
itoa (pos n) = digits (suc n) n
itoa (negsuc n) = "-" <> digits (suc (suc n)) (suc n)

itoa_lem : itoa (pos 30000) <> itoa (negsuc 0) ≡ "30000-1"
unfolding itoa
itoa_lem = refl

-- strconv.Atoi: an optional sign and decimal digits, for a value in the range of a 64-bit int.
abbrev pub atoi_error : String
atoi_error = "strconv.Atoi: invalid syntax"

unfoldable pub parse_digits : ℕ → String → Result ℕ
parse_digits n [] = ok n
parse_digits n (c ∷ s) =
    if leb b'0' (code c) && leb (code c) b'9'
    then parse_digits (n * 10 + (code c - b'0')) s
    else err atoi_error

-- the digits, of which there must be one
unfoldable pub parse_natural : String → Result ℕ
unfolding parse_digits
parse_natural [] = err atoi_error
parse_natural (c ∷ s) = parse_digits 0 (c ∷ s)

abbrev pub negate : ℕ → ℤ
negate zero = pos zero
negate (suc n) = negsuc n

-- with the number below its bound
abbrev pub in_range : ℕ → (ℕ → ℤ) → Result ℕ → Result ℤ
in_range bound f (ok n) = if ltb n bound then ok (f n) else err "strconv.Atoi: value out of range"
in_range bound f (err e) = err e

abbrev pub max_int : ℕ
max_int = 2 ^ 63 - 1

unfoldable pub atoi : String → Result ℤ
unfolding parse_natural
atoi [] = err atoi_error
atoi (c ∷ s) =
    if nat_eq (code c) b'-'
    then in_range (max_int + 2) negate (parse_natural s)
    else if nat_eq (code c) b'+'
    then in_range (max_int + 1) pos (parse_natural s)
    else in_range (max_int + 1) pos (parse_natural (c ∷ s))

atoi_lem :
    (atoi "30000" ≡ ok (pos 30000)) × (atoi "-1" ≡ ok (negsuc 0)) × (atoi "1s" ≡ err atoi_error)
unfolding atoi
atoi_lem = (refl, refl, refl)
