-- ===== src/Base/Results.antt =====
-- The outcome of code that may throw: a value or an error, with the chain of steps.
use mathlib.Core.Path.{◌≡◌, refl}

pub data Result {ℓ} (E : Type 0) (A : Type ℓ) : Type ℓ where
  ok : A → Result E A
  err : E → Result E A

infixl 5 ◌>>=◌
abbrev pub ◌>>=◌ {ℓ κ} :
    {E : Type 0} {S : Type ℓ} {T : Type κ} → Result E S → (S → Result E T) → Result E T
err thrown >>= next = err thrown
ok state >>= next = next state

-- Chains whose next steps agree are equal.
pub >>=-congr {ℓ κ} :
    {E : Type 0} {S : Type ℓ} {T : Type κ} (r : Result E S) {step other : S → Result E T}
    → ((s : S) → step s ≡ other s)
    → (r >>= step) ≡ (r >>= other)
>>=-congr (err thrown) agree = refl
>>=-congr (ok state) agree = agree state
