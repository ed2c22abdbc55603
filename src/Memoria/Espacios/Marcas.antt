-- ===== src/Memoria/Espacios/Marcas.antt =====
-- What marking and clearing do to each bit.
use tp_so20231c.Common.{
  ℕ, zero, suc, ◌+◌, ◌≤◌, ◌<◌, ◌≡◌, refl, sym, ◌∙◌, true, false, arith, ◌⊎◌, inl, inr, ◌==◌, ==_iff,
  Bool-cases,
}
use tp_so20231c.Common.Int.{pos}
use tp_so20231c.Memoria.Bitarray.{Bitarray}
use tp_so20231c.Memoria.Espacios.{marcar, limpiar, ocupar_bit_map, liberar_bit_map, vueltas}

module _ (B : Bitarray) where
  pub marcar_fuera :
      (n : ℕ) (b : B.Rep) (base j : ℕ)
      → base + n ≤ B.bits
      → (j < base) ⊎ (base + n ≤ j)
      → B.test (marcar B n b base) j ≡ B.test b j
  unfolding marcar
  marcar_fuera zero b base j h f = refl
  marcar_fuera (suc n) b base j h f =
      marcar_fuera n (B.set_bit b base) (suc base) j (omega arith) (omega arith)
      ∙ B.test-set_bit_ne b base j (omega arith) (λ e. absurd (omega arith))

  pub marcar_dentro :
      (n : ℕ) (b : B.Rep) (base j : ℕ)
      → base + n ≤ B.bits
      → base ≤ j
      → j < base + n
      → B.test (marcar B n b base) j ≡ true
  unfolding marcar
  marcar_dentro zero b base j h l u = absurd (omega arith)
  marcar_dentro (suc n) b base j h l u = elim (Bool-cases (base == j)) [
    | inl e ↦
        marcar_fuera n (B.set_bit b base) (suc base) j (omega arith) (inl (ground arith))
        ∙ rw (sym ((==_iff base j).0 e)) (B.test-set_bit b base (omega arith))
    | inr e ↦
        marcar_dentro n (B.set_bit b base) (suc base) j (omega arith) (ground arith) (omega arith)
  ]

  pub limpiar_fuera :
      (n : ℕ) (b : B.Rep) (base j : ℕ)
      → base + n ≤ B.bits
      → (j < base) ⊎ (base + n ≤ j)
      → B.test (limpiar B n b base) j ≡ B.test b j
  unfolding limpiar
  limpiar_fuera zero b base j h f = refl
  limpiar_fuera (suc n) b base j h f =
      limpiar_fuera n (B.clean_bit b base) (suc base) j (omega arith) (omega arith)
      ∙ B.test-clean_bit_ne b base j (omega arith) (λ e. absurd (omega arith))

  pub limpiar_dentro :
      (n : ℕ) (b : B.Rep) (base j : ℕ)
      → base + n ≤ B.bits
      → base ≤ j
      → j < base + n
      → B.test (limpiar B n b base) j ≡ false
  unfolding limpiar
  limpiar_dentro zero b base j h l u = absurd (omega arith)
  limpiar_dentro (suc n) b base j h l u = elim (Bool-cases (base == j)) [
    | inl e ↦
        limpiar_fuera n (B.clean_bit b base) (suc base) j (omega arith) (inl (ground arith))
        ∙ rw (sym ((==_iff base j).0 e)) (B.test-clean_bit b base (omega arith))
    | inr e ↦
        limpiar_dentro n (B.clean_bit b base) (suc base) j (omega arith) (ground arith)
          (omega arith)
  ]

  -- `ocuparBitMap` and `liberarBitMap` on a base and a size that is not negative, within the array:
  -- the bits from base up to base + size, the one at base + size included, become 1 and 0, and all
  -- others stay.
  pub ocupar-liberar :
      (b : B.Rep) (base limite j : ℕ)
      → base + limite < B.bits
      → ((base ≤ j)
          × (j ≤ base + limite)
          × (B.test (ocupar_bit_map B b base (pos limite)) j ≡ true)
          × (B.test (liberar_bit_map B b base (pos limite)) j ≡ false))
        ⊎ (((j < base) ⊎ (base + limite < j))
            × (B.test (ocupar_bit_map B b base (pos limite)) j ≡ B.test b j)
            × (B.test (liberar_bit_map B b base (pos limite)) j ≡ B.test b j))
  unfolding ocupar_bit_map liberar_bit_map vueltas
  ocupar-liberar b base limite j h = elim (lado base limite j) [
    | inl d ↦ inl (
      d.0,
      d.1,
      marcar_dentro (suc limite) b base j (omega arith) (d.0) (omega (arith, d.1)),
      limpiar_dentro (suc limite) b base j (omega arith) (d.0) (omega (arith, d.1)),
    )
    | inr f ↦ inr (
      f,
      marcar_fuera (suc limite) b base j (omega arith) (omega arith),
      limpiar_fuera (suc limite) b base j (omega arith) (omega arith),
    )
  ]
    where
      lado :
          (base limite j : ℕ)
          → ((base ≤ j) × (j ≤ base + limite)) ⊎ ((j < base) ⊎ (base + limite < j))
      lado base limite j = ground arith
