-- ===== src/Memoria/Espacios/Cuenta.antt =====
-- What the counting loops find on the bitmap.
use tp_so20231c.Common.{
  ℕ, zero, suc, ◌+◌, ◌≤◌, ◌<◌, ◌≡◌, ◌≢◌, sym, ap, ◌∙◌, Bool, true, false, Bool-cases, arith, inl,
  inr, if◌then◌else◌, ◌==◌, ==_iff,
}
use tp_so20231c.Memoria.Bitarray.{Bitarray}
use tp_so20231c.Memoria.Espacios.{contar_ocupados, contar_libres, disponibles_desde}

module _ (B : Bitarray) where
  -- Every bit of the stretch is `v`.
  abbrev pub Todos : B.Rep → Bool → ℕ → ℕ → Type 0
  Todos b v desde hasta = (j : ℕ) → desde ≤ j → j < hasta → B.test b j ≡ v

  -- A stretch of k bits `v` from i on, which stops at another bit or at i + n.
  abbrev pub Tramo : B.Rep → Bool → ℕ → ℕ → ℕ → Type 0
  Tramo b v n i k = (k ≤ n) × Todos b v i (i + k) × (k < n → B.test b (i + k) ≢ v)

module _ (B : Bitarray) where
  extiende :
      (b : B.Rep) (v : Bool) (n i k : ℕ)
      → B.test b i ≡ v
      → Tramo B b v n (suc i) k
      → Tramo B b v (suc n) i (suc k)
  extiende b v n i k h t = (
    omega (arith, t.0),
    λ j l u. elim (Bool-cases (i == j)) [
      | inl e ↦ rw (sym ((==_iff i j).0 e)) h
      | inr e ↦ t.1 j (ground arith) (omega arith)
    ],
    λ l. rw (mas i k) (t.2 (omega arith)),
  )
    where
      mas : (i k : ℕ) → i + suc k ≡ suc i + k
      mas i k = omega arith

  nada : (b : B.Rep) (v : Bool) (n i : ℕ) → (0 < n → B.test b i ≢ v) → Tramo B b v n i 0
  nada b v n i h = (omega arith, λ j l u. absurd (omega arith), λ l. rw (mas i) (h l))
    where
      mas : (i : ℕ) → i + 0 ≡ i
      mas i = omega arith

  distinto : (b v w : Bool) → b ≡ v → v ≢ w → b ≢ w
  distinto b v w e n h = n (sym e ∙ h)

  pub contar_libres-Tramo :
      (n : ℕ) (b : B.Rep) (i : ℕ) → Tramo B b false n i (contar_libres B n b i)
  unfolding contar_libres
  contar_libres-Tramo zero b i = nada b false 0 i (λ l. absurd (omega arith))
  contar_libres-Tramo (suc n) b i = elim (Bool-cases (B.test b i)) [
    | inl e ↦ rw e (nada b false (suc n) i (λ _ h. ground arith))
    | inr e ↦ rw e (extiende b false n i _ e (contar_libres-Tramo n b (suc i)))
  ]

  pub contar_ocupados-Tramo :
      (n : ℕ) (b : B.Rep) (i : ℕ) → Tramo B b true n i (contar_ocupados B n b i)
  unfolding contar_ocupados
  contar_ocupados-Tramo zero b i = nada b true 0 i (λ l. absurd (omega arith))
  contar_ocupados-Tramo (suc n) b i = elim (Bool-cases (B.test b i)) [
    | inl e ↦ rw e (extiende b true n i _ e (contar_ocupados-Tramo n b (suc i)))
    | inr e ↦ rw e (nada b true (suc n) i (λ _ h. ground arith))
  ]

  -- A stretch of free bits counts in full, one of occupied bits not at all.
  pub disponibles-Todos :
      (b : B.Rep) (v : Bool) (k m n i j : ℕ)
      → n ≡ k + m
      → j ≡ i + k
      → Todos B b v i j
      → disponibles_desde B n b i ≡ (if v then 0 else k) + disponibles_desde B m b j
  unfolding disponibles_desde
  disponibles-Todos b v zero m n i j e f h =
      let p : n ≡ m = omega arith in let q : j ≡ i = omega arith in rw (p, q) (cero v)
    where
      cero :
          (v : Bool) → disponibles_desde B m b i ≡ (if v then 0 else 0) + disponibles_desde B m b i
      cero true = omega arith
      cero false = omega arith
  disponibles-Todos b v (suc k) m zero i j e f h = absurd (omega arith)
  disponibles-Todos b true (suc k) m (suc n) i j e f h = rw (h i (omega arith) (omega arith)) (
      disponibles-Todos b true k m n (suc i) j (omega arith) (omega arith)
        (λ x l u. h x (omega arith) u))
  disponibles-Todos b false (suc k) m (suc n) i j e f h = rw (h i (omega arith) (omega arith)) (
      ap suc (
        disponibles-Todos b false k m n (suc i) j (omega arith) (omega arith)
          (λ x l u. h x (omega arith) u))
      ∙ omega arith)
