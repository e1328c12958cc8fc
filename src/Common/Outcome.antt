-- ===== src/Common/Outcome.antt =====
use mathlib.Core.Path.{◌≡◌, refl}
use mathlib.Core.Logic.{◌⊎◌, inl, inr}

-- How a call of the program ends, seen from its caller.
-- `waits` is a wait that no other thread ends, `fault` an access outside live memory.
pub data Outcome {ℓ} (A : Type ℓ) : Type ℓ where
  done : A → Outcome A
  waits : Outcome A
  fault : Outcome A

infixl 5 ◌>>=◌
abbrev pub ◌>>=◌ {ℓ κ} : {A : Type ℓ} {B : Type κ} → Outcome A → (A → Outcome B) → Outcome B
done a >>= f = f a
waits >>= f = waits
fault >>= f = fault

-- To split on how a call ends and keep the equation.
pub Outcome-cases {ℓ} :
    {A : Type ℓ} (o : Outcome A) → ((a : A) × (o ≡ done a)) ⊎ (o ≡ waits) ⊎ (o ≡ fault)
Outcome-cases (done a) = inl (a, refl)
Outcome-cases waits = inr (inl refl)
Outcome-cases fault = inr (inr refl)
