-- ===== src/Prelude/Result.antt =====
-- Go's `(value, error)` results: an error is its text, `%w` puts the inner text behind the outer.
-- `Act S A` is a function that works on a session `S`; what was done before an error stays done.
use Prim.Native.String.{String}
use mathlib.Core.Path.{◌≡◌, refl}
use mathlib.Core.Logic.{◌⊎◌, inl, inr}
use mathlib.Core.Bool.{Bool, true, false}
use mathlib.Core.List.{List, [], ◌∷◌}
use native.Mathlib.Omega.{arith}
use yb_terraform_provider_po.Prelude.Tests.{◌<>◌}

pub data Result (A : Type 0) : Type 0 where
  ok : A → Result A
  err : String → Result A

pub Result-cases :
    {A : Type 0} (r : Result A) → ((a : A) × (r ≡ ok a)) ⊎ ((e : String) × (r ≡ err e))
Result-cases (ok a) = inl (a, refl)
Result-cases (err e) = inr (e, refl)

-- `fmt.Errorf("message: %w", err)`
abbrev pub wrap : {A : Type 0} → String → Result A → Result A
wrap message (ok a) = ok a
wrap message (err e) = err (message <> e)

abbrev pub Act : Type 0 → Type 0 → Type 0
Act S A = S → Result A × S

module _ {S : Type 0} where
  abbrev pub pure : {A : Type 0} → A → Act S A
  pure a s = (ok a, s)

  abbrev pub fail : {A : Type 0} → String → Act S A
  fail e s = (err e, s)

  abbrev pub lift : {A : Type 0} → Result A → Act S A
  lift r s = (r, s)

  abbrev pub continue : {A B : Type 0} → Result A → (A → Act S B) → Act S B
  continue (ok a) f s = f a s
  continue (err e) f s = (err e, s)

  infixl 5 ◌>>=◌ ◌>>◌
  abbrev pub ◌>>=◌ : {A B : Type 0} → Act S A → (A → Act S B) → Act S B
  ◌>>=◌ m f s = let (r, s') = m s in continue r f s'

  abbrev pub ◌>>◌ : {A B : Type 0} → Act S A → Act S B → Act S B
  m >> k = m >>= λ _. k

  -- `if err := m; err != nil { return fmt.Errorf("message: %w", err) }`
  abbrev pub context : {A : Type 0} → String → Act S A → Act S A
  context message m s = let (r, s') = m s in (wrap message r, s')

  -- `if test { return m }`, and go on otherwise
  abbrev pub when : Bool → Act S (Unit {0}) → Act S (Unit {0})
  when true m = m
  when false m = pure tt

  -- a `for` loop over a slice that returns at the first error
  abbrev pub for_each : {A : Type 0} → List A → (A → Act S (Unit {0})) → Act S (Unit {0})
  for_each [] f = pure tt
  for_each (x ∷ xs) f = f x >> for_each xs f

  -- What holds of the parts of a sequence that succeeds holds of the sequence.
  pub bind-elim {ℓ} :
      {A B : Type 0} {C : Type ℓ} (m : Act S A) (f : A → Act S B) (s t : S) (b : B)
      → (m >>= f) s ≡ (ok b, t)
      → ((a : A) (u : S) → m s ≡ (ok a, u) → f a u ≡ (ok b, t) → C)
      → C
  bind-elim {A} {B} {C} m f s t b h k = go (m s).0 (m s).1 refl h
    where
      go : (r : Result A) (u : S) → m s ≡ (r, u) → continue r f u ≡ (ok b, t) → C
      go (ok a) u p q = k a u p q
      go (err e) u p q = absurd (cc)

  pub context-eq-ok :
      {A : Type 0} (message : String) (m : Act S A) (s : S) {a : A} {t : S}
      → context message m s ≡ (ok a, t)
      → m s ≡ (ok a, t)
  context-eq-ok message m s {a} {t} h = ground arith
