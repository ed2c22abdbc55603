-- ===== src/Common/Hoare.antt =====
-- What holds of the result of an outcome, when there is one. Opaque, so that a goal keeps the
-- shape of the program: `bind-Cumple` and `if-Cumple` follow its blocks and its branches.
use mathlib.Core.Path.{◌≡◌, refl, sym}
use mathlib.Core.Bool.{Bool, true, false}
use native.Mathlib.Omega.{arith}
use tp_so20231c.Common.Tests.{if◌then◌else◌}
use tp_so20231c.Common.Results.{Outcome, ok, exit, fault, bind}

unfoldable pub Cumple {ℓ κ} : {A : Type ℓ} → (A → Type κ) → Outcome A → Type (ℓ ⊔ κ)
Cumple {A = A} P o = (a : A) → o ≡ ok a → P a

ok_inj {ℓ} : {A : Type ℓ} (a b : A) → Outcome.ok a ≡ ok b → a ≡ b
ok_inj a b e = ground arith

pub ok-Cumple {ℓ κ} : {A : Type ℓ} (P : A → Type κ) {a : A} → P a → Cumple P (ok a)
unfolding Cumple
ok-Cumple P {a} p b e = rw (sym (ok_inj a b e)) p

pub exit-Cumple {ℓ κ} : {A : Type ℓ} (P : A → Type κ) → Cumple P exit
unfolding Cumple
exit-Cumple P a e = ground arith

pub bind-Cumple {ℓ κ μ} :
    {A : Type ℓ} {B : Type κ} (P : B → Type μ) (o : Outcome A) (f : A → Outcome B)
    → ((a : A) → o ≡ ok a → Cumple P (f a))
    → Cumple P (bind o f)
unfolding Cumple
bind-Cumple P (ok a) f h = h a refl
bind-Cumple P exit f h = λ b e. ground arith
bind-Cumple P fault f h = λ b e. ground arith

pub if-Cumple {ℓ κ} :
    {A : Type ℓ} (P : A → Type κ) (b : Bool) (x y : Outcome A)
    → (b ≡ true → Cumple P x)
    → (b ≡ false → Cumple P y)
    → Cumple P (if b then x else y)
if-Cumple P true x y h k = h refl
if-Cumple P false x y h k = k refl

pub fault-Cumple {ℓ κ} : {A : Type ℓ} (P : A → Type κ) → Cumple P fault
unfolding Cumple
fault-Cumple P a e = ground arith

pub mono-Cumple {ℓ κ μ} :
    {A : Type ℓ} (P : A → Type κ) (Q : A → Type μ) (o : Outcome A)
    → ((a : A) → P a → Q a)
    → Cumple P o
    → Cumple Q o
unfolding Cumple
mono-Cumple P Q o f h a e = f a (h a e)

pub siempre-Cumple {ℓ κ} :
    {A : Type ℓ} (P : A → Type κ) (o : Outcome A) → ((a : A) → P a) → Cumple P o
unfolding Cumple
siempre-Cumple P o h a e = h a
