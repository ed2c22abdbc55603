-- ===== src/Common/Results.antt =====
-- What a call of a C function comes to: a result, `exit(-1)`, or undefined behaviour (an access
-- outside of a block, a division by 0, a NULL pointer that is followed).
use mathlib.Core.Path.{◌≡◌, refl}
use mathlib.Core.Logic.{◌⊎◌, inl, inr}

pub data Outcome {ℓ} (A : Type ℓ) : Type ℓ where
  ok : A → Outcome A
  exit : Outcome A
  fault : Outcome A

abbrev pub bind {ℓ κ} : {A : Type ℓ} {B : Type κ} → Outcome A → (A → Outcome B) → Outcome B
bind (ok a) f = f a
bind exit f = exit
bind fault f = fault

pub casos {ℓ} : {A : Type ℓ} (o : Outcome A) → ((a : A) × (o ≡ ok a)) ⊎ ((o ≡ exit) ⊎ (o ≡ fault))
casos (ok a) = inl (a, refl)
casos exit = inr (inl refl)
casos fault = inr (inr refl)
