-- ===== src/Prelude/Fallible.antt =====
-- Computations that may fail, with any type of errors.
use mathlib.Core.Path.{◌≡◌, refl, subst}
use mathlib.Core.Logic.{◌⊎◌, inl, inr}
use mathlib.Core.Option.{some}

pub data Result {ℓ} (E A : Type ℓ) : Type ℓ where
  ok : A → Result E A
  err : E → Result E A

module _ {ℓ} {E A B : Type ℓ} where
  infixl 5 ◌>>=◌ ◌>>◌
  abbrev pub ◌>>=◌ : Result E A → (A → Result E B) → Result E B
  ok a >>= f = f a
  err e >>= f = err e

  abbrev pub ◌>>◌ : Result E A → Result E B → Result E B
  m >> k = m >>= λ _. k

  -- Inversion of a successful bind.
  pub bind-eq-ok :
      (m : Result E A) (f : A → Result E B) {b : B}
      → (m >>= f) ≡ ok b
      → (a : A) × (m ≡ ok a) × (f a ≡ ok b)
  bind-eq-ok (ok a) f h = (a, refl, h)
  bind-eq-ok (err e) f h = cc

module _ {ℓ} {E A : Type ℓ} where
  pub Result-cases : (r : Result E A) → ((a : A) × (r ≡ ok a)) ⊎ ((e : E) × (r ≡ err e))
  Result-cases (ok a) = inl (a, refl)
  Result-cases (err e) = inr (e, refl)

module _ {ℓ κ} {A : Type ℓ} where
  -- What holds of a result holds of the same result by another name.
  pub some-subst : (P : A → Type κ) {a b : A} → some a ≡ some b → P a → P b
  some-subst P {a} {b} e p = let same : a ≡ b = cc e in subst P same p
