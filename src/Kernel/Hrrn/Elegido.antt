-- ===== src/Kernel/Hrrn/Elegido.antt =====
-- Which process HRRN chooses, in a kernel whose estimates are the configuration's.
use mathlib.Core.List.{Memᴰ}
use mathlib.Core.List.Memᴰ.{head, tail}
use tp_so20231c.Common.{
  Bool-cases, ℕ, ◌+◌, ◌/◌, ◌<◌, ◌≤◌, ◌≡◌, refl, List, [], ◌∷◌, false, arith, ok, bind, ◌==◌,
  if◌then◌else◌, ◌⊎◌, inl, inr,
}
use tp_so20231c.Common.Int.{ℤ, pos, ◌+ℤ◌, ◌-ℤ◌, ◌*ℤ◌, ltb_ℤ}
use tp_so20231c.Cpu.Enteros.{div_int}
use tp_so20231c.Kernel.Hrrn.{
  Estimadas, estimado, get_estimado_rafaga_proceso, get_hrrn_proceso, mayor_hrrn, list_get_maximum,
}

-- p goes in front of q: the higher quotient, and at one quotient the shorter wait.
abbrev pub Gana : (ℕ → ℕ) → ℕ → ℕ → ℕ → Type 0
Gana espera e p q =
    (espera q / e < espera p / e) ⊎ ((espera q / e ≡ espera p / e) × (espera p ≤ espera q))

abbrev pub GanaATodos : (ℕ → ℕ) → ℕ → ℕ → List ℕ → Type 0
GanaATodos espera e p [] = Unit {0}
GanaATodos espera e p (q ∷ lista) = Gana espera e p q × GanaATodos espera e p lista

module _ (alpha : ℤ) (rafaga_real : ℕ → ℤ) (espera : ℕ → ℕ) (e : ℕ) where
  igual :
      (est : Estimadas) (p : ℕ)
      → (alpha ≡ pos 0) ⊎ (alpha ≡ pos 1)
      → rafaga_real p ≡ pos e
      → est p ≡ pos e
      → estimado alpha rafaga_real espera est p ≡ pos e
  unfolding estimado ◌+ℤ◌ ◌-ℤ◌ ◌*ℤ◌
  igual est p (inl a) r s = rw (a, r, s) (ground arith)
  igual est p (inr a) r s = rw (a, r, s) (ground arith)

  division : (n : ℕ) → 0 < e → div_int (pos n) (pos e) ≡ ok (pos (n / e))
  unfolding div_int
  division n h =
      let a : e + 0 ≡ e = omega arith in
      let b : n + 0 ≡ n = omega arith in
      let z : (e == 0) ≡ false = ground arith in rw (a, b, z, div_int) refl

  uno_mas : (n : ℕ) → pos 1 +ℤ pos n ≡ pos (1 + n)
  unfolding ◌+ℤ◌
  uno_mas n = ground arith

  -- Every estimate is the configuration's.
  abbrev pub Iguales : Estimadas → Type 0
  Iguales est = (q : ℕ) → est q ≡ pos e

  Memᴰ-elegido :
      (m n p q : ℕ) (lista : List ℕ)
      → (n ≡ p) ⊎ (n ≡ q)
      → Memᴰ m (n ∷ lista)
      → Memᴰ m (p ∷ q ∷ lista)
  Memᴰ-elegido m n p q lista (inl a) h = elim (rw a at h) [
    | head x ↦ head x
    | tail t ↦ tail (tail t)
  ]
  Memᴰ-elegido m n p q lista (inr a) h = tail (rw a at h)

  Gana-Gana : (p q r : ℕ) → Gana espera e p q → Gana espera e q r → Gana espera e p r
  Gana-Gana p q r (inl a) (inl b) = inl (omega arith)
  Gana-Gana p q r (inl a) (inr b) = inl (omega (arith, b.0))
  Gana-Gana p q r (inr a) (inl b) = inl (omega (arith, a.0))
  Gana-Gana p q r (inr a) (inr b) = inr (omega (arith, a.0, b.0), omega (arith, a.1, b.1))

  abbrev elegido : ℕ → ℕ → ℕ
  elegido p q =
      if ltb_ℤ (pos (1 + espera q / e)) (pos (1 + espera p / e))
      then p
      else if ltb_ℤ (pos (1 + espera p / e)) (pos (1 + espera q / e))
      then q
      else if ltb_ℤ (pos (espera p)) (pos (espera q))
      then p
      else q

  elegido_lem :
      (p q : ℕ)
      → Gana espera e (elegido p q) p
        × Gana espera e (elegido p q) q
        × ((elegido p q ≡ p) ⊎ (elegido p q ≡ q))
  elegido_lem p q = elim (Bool-cases (ltb_ℤ (pos (1 + espera q / e)) (pos (1 + espera p / e)))) [
    | inl a ↦ rw a (inr (refl, omega arith), inl (ground arith), inl refl)
    | inr a ↦ elim (Bool-cases (ltb_ℤ (pos (1 + espera p / e)) (pos (1 + espera q / e)))) [
      | inl b ↦ rw (a, b) (inl (ground arith), inr (refl, omega arith), inr refl)
      | inr b ↦ elim (Bool-cases (ltb_ℤ (pos (espera p)) (pos (espera q)))) [
        | inl c ↦ rw (a, b, c) (inr (refl, omega arith), inr (ground arith, ground arith), inl refl)
        | inr c ↦ rw (a, b, c) (inr (ground arith, ground arith), inr (refl, omega arith), inr refl)
      ]
    ]
  ]

  module _ (enteros : (alpha ≡ pos 0) ⊎ (alpha ≡ pos 1)) (reales : (q : ℕ) → rafaga_real q ≡ pos e)
      (positivo : 0 < e) where
    anotada :
        (est : Estimadas) (p : ℕ)
        → Iguales est
        → Iguales (get_estimado_rafaga_proceso alpha rafaga_real espera est p)
    unfolding get_estimado_rafaga_proceso
    anotada est p h q = elim (Bool-cases (q == p)) [
      | inl a ↦ rw a (igual est p enteros (reales p) (h p))
      | inr a ↦ rw a (h q)
    ]

    prioridad :
        (est : Estimadas) (p : ℕ)
        → Iguales est
        → get_hrrn_proceso alpha rafaga_real espera est p
          ≡ ok (pos (1 + espera p / e), get_estimado_rafaga_proceso alpha rafaga_real espera est p)
    unfolding get_hrrn_proceso
    prioridad est p h =
        rw
          (
            igual est p enteros (reales p) (h p),
            division (espera p) positivo,
            uno_mas (espera p / e),
            get_hrrn_proceso,
          )
          refl

    comparados :
        (est : Estimadas) (p q : ℕ)
        → Iguales est
        → (est' : Estimadas) × Iguales est'
          × (mayor_hrrn alpha rafaga_real espera est p q ≡ ok (elegido p q, est'))
    unfolding mayor_hrrn
    comparados est p q h =
        let est1 = get_estimado_rafaga_proceso alpha rafaga_real espera est p in
        let h1 = anotada est p h in
        (
          get_estimado_rafaga_proceso alpha rafaga_real espera est1 q,
          anotada est1 q h1,
          rw (prioridad est p h, mayor_hrrn, bind) (rw (prioridad est1 q h1, bind) refl),
        )

    -- The estimates are all the configuration's first one, which is positive, as each process has it
    -- when it is made, and `alpha` is the whole part of a number between 0 and 1. Then HRRN chooses a
    -- process of the list that goes in front of all of them: the quotient of its wait and the
    -- estimate is the highest, and of those with that quotient it has waited least. The estimates stay
    -- as they are.
    pub hrrn_lem :
        (est : Estimadas) (p : ℕ) (lista : List ℕ)
        → Iguales est
        → (m : ℕ) × (est' : Estimadas) × (list_get_maximum alpha rafaga_real espera est p lista
            ≡ ok (m, est'))
          × Memᴰ m (p ∷ lista)
          × GanaATodos espera e m (p ∷ lista)
          × Iguales est'
    unfolding list_get_maximum
    hrrn_lem est p [] h = (p, est, refl, head refl, (inr (refl, omega arith), tt), h)
    hrrn_lem est p (q ∷ lista) h =
        let c = comparados est p q h in
        let n = elegido p q in
        let g = elegido_lem p q in
        let r = hrrn_lem (c.0) n lista (c.1) in
        (
          r.0,
          r.1,
          rw (c.2, list_get_maximum, bind) (r.2),
          Memᴰ-elegido (r.0) n p q lista (g.2) (r.3),
          (Gana-Gana (r.0) n p (r.4.0) (g.0), (Gana-Gana (r.0) n q (r.4.0) (g.1), r.4.1)),
          r.5,
        )
