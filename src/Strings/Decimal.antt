-- ===== src/Strings/Decimal.antt =====
-- strconv.Atoi reads what `%d` prints.
use Prim.Native.String.{[], ◌∷◌, char_at}
use mathlib.Core.List.{[], ◌∷◌}
use yb_terraform_provider_po.Prelude.{
  ℕ, zero, suc, ◌+◌, ◌-◌, ◌*◌, ◌/◌, ◌%◌, ◌≤◌, ◌<◌, String, Char, code, ◌<>◌, ◌≡◌, ◌≢◌, refl, ap,
  ◌∙◌, arith, ltb, Bool-cases, inl, inr, if◌then◌else◌,
}
use yb_terraform_provider_po.Prelude.Int.{
  ℤ, pos, negsuc, digit, digits, itoa, parse_digits, parse_natural, atoi, max_int,
}
use yb_terraform_provider_po.Prelude.Result.{ok}
use yb_terraform_provider_po.Strings.{prepend, append-prepend, contains, has_prefix}
use yb_terraform_provider_po.Strings.Laws.{IsPart}

digit_code : (d : ℕ) → d < 10 → code (char_at "0123456789" d) ≡ b'0' + d
digit_code zero h = refl
digit_code (suc zero) h = refl
digit_code (suc (suc zero)) h = refl
digit_code (suc (suc (suc zero))) h = refl
digit_code (suc (suc (suc (suc zero)))) h = refl
digit_code (suc (suc (suc (suc (suc zero))))) h = refl
digit_code (suc (suc (suc (suc (suc (suc zero)))))) h = refl
digit_code (suc (suc (suc (suc (suc (suc (suc zero))))))) h = refl
digit_code (suc (suc (suc (suc (suc (suc (suc (suc zero)))))))) h = refl
digit_code (suc (suc (suc (suc (suc (suc (suc (suc (suc zero))))))))) h = refl
digit_code (suc (suc (suc (suc (suc (suc (suc (suc (suc (suc d)))))))))) h = absurd (omega arith)

parse_digits-prepend :
    (a k d : ℕ) (s : String)
    → d < 10
    → parse_digits a s ≡ ok k
    → parse_digits a (prepend s (digit d)) ≡ ok (k * 10 + d)
unfolding parse_digits
parse_digits-prepend a k d [] h e = ground (arith, digit_code d h)
parse_digits-prepend a k d (c ∷ s) h e =
    ground (arith, parse_digits-prepend (a * 10 + (code c - b'0')) k d s h)

div_less : (n f : ℕ) → n < suc f → 10 ≤ n → n / 10 < f
div_less n f h k = omega arith

mod_less : (n : ℕ) → n % 10 < 10
mod_less n = omega arith

div_mod : (n : ℕ) → (n / 10) * 10 + n % 10 ≡ n
div_mod n = omega arith

digits_step :
    (f n : ℕ)
    → digits (suc f) n
      ≡ (if ltb n 10 then digit n else prepend (digits f (n / 10)) (digit (n % 10)))
unfolding digits
digits_step f n = rw (append-prepend (digits f (n / 10)) (digit (n % 10))) refl

parse_digits-digits : (f n : ℕ) → n < f → parse_digits 0 (digits f n) ≡ ok n
unfolding parse_digits
parse_digits-digits zero n h = absurd (omega arith)
parse_digits-digits (suc f) n h = elim (Bool-cases (ltb n 10)) [
  | inl small ↦ rw (digits_step f n, small) (ground (arith, digit_code n))
  | inr large ↦
      rw (digits_step f n, large)
        (parse_digits-prepend 0 (n / 10) (n % 10) (digits f (n / 10)) (mod_less n)
            (parse_digits-digits f (n / 10) (div_less n f h (ground arith)))
          ∙ ap ok (div_mod n))
]

abbrev IsDigits : String → Type 0
IsDigits [] = Unit
IsDigits (c ∷ s) = (b'0' ≤ code c) × (code c ≤ b'9') × IsDigits s

IsDigits-prepend : (s t : String) → IsDigits s → IsDigits t → IsDigits (prepend s t)
IsDigits-prepend [] t h k = k
IsDigits-prepend (c ∷ s) t (a, b, h) k = (a, b, IsDigits-prepend s t h k)

digit-IsDigits : (d : ℕ) → d < 10 → IsDigits (digit d)
digit-IsDigits d h = (omega (arith, digit_code d h), omega (arith, digit_code d h), tt)

digits-IsDigits : (f n : ℕ) → IsDigits (digits f n)
unfolding digits
digits-IsDigits zero n = tt
digits-IsDigits (suc f) n = elim (Bool-cases (ltb n 10)) [
  | inl small ↦ rw (digits_step f n, small) (digit-IsDigits n (ground arith))
  | inr large ↦
      rw (digits_step f n, large)
        (IsDigits-prepend _ _ (digits-IsDigits f (n / 10)) (digit-IsDigits (n % 10) (mod_less n)))
]

IsDigits-IsPart : (s : String) → IsDigits s → IsPart s
unfolding contains has_prefix
IsDigits-IsPart [] h = refl
IsDigits-IsPart (c ∷ s) (a, b, h) = ground (arith, IsDigits-IsPart s h)

prepend-ne-nil : (s : String) (c : Char) → prepend s (c ∷ "") ≢ ""
prepend-ne-nil [] c = cc
prepend-ne-nil (d ∷ s) c = cc

digits-ne-nil : (f n : ℕ) → digits (suc f) n ≢ ""
digits-ne-nil f n = elim (Bool-cases (ltb n 10)) [
  | inl small ↦ rw (digits_step f n, small) (cc)
  | inr large ↦ rw (digits_step f n, large) (prepend-ne-nil _ _)
]

-- the range of a 64-bit int
abbrev pub IsInt64 : ℤ → Type 0
IsInt64 (pos n) = n ≤ max_int
IsInt64 (negsuc n) = n ≤ max_int

atoi-digits :
    (s : String) (n : ℕ)
    → IsDigits s
    → s ≢ ""
    → parse_digits 0 s ≡ ok n
    → n ≤ max_int
    → atoi s ≡ ok (pos n)
unfolding atoi parse_natural
atoi-digits [] n h e p b = absurd (e refl)
atoi-digits (c ∷ s) n (l, u, h) e p b = ground arith

atoi-minus :
    (s : String) (n : ℕ)
    → s ≢ ""
    → parse_digits 0 s ≡ ok (suc n)
    → n ≤ max_int
    → atoi ("-" <> s) ≡ ok (negsuc n)
unfolding atoi parse_natural
atoi-minus [] n e p b = absurd (e refl)
atoi-minus (c ∷ s) n e p b = rw (append-prepend "-" (c ∷ s)) (ground arith)

-- A number in the range of an int64 is read back from its decimal form.
pub atoi-itoa : (v : ℤ) → IsInt64 v → atoi (itoa v) ≡ ok v
unfolding itoa
atoi-itoa (pos n) b =
    atoi-digits (digits (suc n) n) n (digits-IsDigits (suc n) n) (digits-ne-nil n n)
      (parse_digits-digits (suc n) n (omega arith)) b
atoi-itoa (negsuc n) b =
    atoi-minus (digits (suc (suc n)) (suc n)) n (digits-ne-nil (suc n) (suc n))
      (parse_digits-digits (suc (suc n)) (suc n) (omega arith)) b

pub itoa-IsPart : (v : ℤ) → IsPart (itoa v)
unfolding itoa contains has_prefix
itoa-IsPart (pos n) = IsDigits-IsPart _ (digits-IsDigits (suc n) n)
itoa-IsPart (negsuc n) =
    rw (append-prepend "-") (IsDigits-IsPart _ (digits-IsDigits (suc (suc n)) (suc n)))
