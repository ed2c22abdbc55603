-- ===== src/Kernel/Planificador/Turnos.antt =====
-- What holds after a turn: `Bien C P` says P of the system that it leaves, and C where it falls.
use tp_so20231c.Common.{
  ℕ, List, [], ◌∷◌, Option, none, some, Bool, true, false, ◌≡◌, ◌≢◌, refl, if◌then◌else◌,
}
use tp_so20231c.Common.Int.{ℤ, pos, negsuc}
use tp_so20231c.Kernel.Sistema.{Sistema, Turno, espera, sigue, abrazo, cae}

unfoldable pub Bien : Type 0 → (Sistema → Type 0) → Turno → Type 0
Bien C P espera = Unit
Bien C P (sigue s) = P s
Bien C P abrazo = Unit
Bien C P cae = C

module _ (C : Type 0) (P : Sistema → Type 0) where
  pub espera-Bien : Bien C P espera
  unfolding Bien
  espera-Bien = tt

  pub abrazo-Bien : Bien C P abrazo
  unfolding Bien
  abrazo-Bien = tt

  pub cae-Bien : C → Bien C P cae
  unfolding Bien
  cae-Bien c = c

  pub sigue-Bien : (s : Sistema) → P s → Bien C P (sigue s)
  unfolding Bien
  sigue-Bien s p = p

  pub if-Bien :
      (b : Bool) (x y : Turno)
      → (b ≡ true → Bien C P x)
      → (b ≡ false → Bien C P y)
      → Bien C P (if b then x else y)
  if-Bien true x y h k = h refl
  if-Bien false x y h k = k refl

  pub lista-Bien :
      {A : Type 0} (l : List A) (x : Turno) (f : A → List A → Turno)
      → (l ≡ [] → Bien C P x)
      → ((a : A) (r : List A) → l ≡ a ∷ r → Bien C P (f a r))
      → Bien C P (elim l [ [] ↦ x | a ∷ r ↦ f a r ])
  lista-Bien [] x f h k = h refl
  lista-Bien (a ∷ r) x f h k = k a r refl

  pub opcion-Bien :
      {A : Type 0} (o : Option A) (x : Turno) (f : A → Turno)
      → (o ≡ none → Bien C P x)
      → ((a : A) → o ≡ some a → Bien C P (f a))
      → Bien C P (elim o [ none ↦ x | some a ↦ f a ])
  opcion-Bien none x f h k = h refl
  opcion-Bien (some a) x f h k = k a refl

  pub entero-Bien :
      (z : ℤ) (f g : ℕ → Turno)
      → ((n : ℕ) → z ≡ pos n → Bien C P (f n))
      → ((n : ℕ) → Bien C P (g n))
      → Bien C P (elim z [ pos n ↦ f n | negsuc n ↦ g n ])
  entero-Bien (pos n) f g h k = h n refl
  entero-Bien (negsuc n) f g h k = k n

  pub Bien-sigue : (t : Turno) (s : Sistema) → Bien C P t → t ≡ sigue s → P s
  unfolding Bien
  Bien-sigue t s h e = rw e at h

pub Bien-con :
    (C : Type 0) (R P : Sistema → Type 0) (t : Turno)
    → ((s : Sistema) → t ≡ sigue s → R s)
    → Bien C P t
    → Bien C (λ s. R s × P s) t
unfolding Bien
Bien-con C R P espera h b = tt
Bien-con C R P (sigue s) h b = (h s refl, b)
Bien-con C R P abrazo h b = tt
Bien-con C R P cae h b = b

pub Bien-cae : (P : Sistema → Type 0) (t : Turno) → Bien ⊥ P t → t ≢ cae
unfolding Bien
Bien-cae P t h e = rw e at h
