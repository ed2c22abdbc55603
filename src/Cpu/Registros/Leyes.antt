-- ===== src/Cpu/Registros/Leyes.antt =====
-- A value written to a register: where it goes, what the padding is, what stays.
use tp_so20231c.Common.{
  ℕ, zero, suc, ◌+◌, ◌≤◌, ◌<◌, ◌≡◌, refl, ◌∙◌, ◌⊎◌, inl, inr, some, ok, fault, bind, Text, arith,
  length, replicate, get_elem?, length-replicate,
}
use tp_so20231c.Cpu.Registros.{
  Registros, escribir_valor_en_registro_con_n_caracteres, donde_escribir,
  escribir_valor_en_registro, donde_leer, encontrar_tamanio_registro,
}
use tp_so20231c.Cpu.Registros.Escritura.{
  encima, escribir_desde-ok, escribir_desde-fault, length-encima, encima_fuera, encima_dentro,
}

-- The two ladders and `encontrar_tamanio_registro` agree on where a register is and how long it is,
-- and every register lies in the block.
pub tabla_de_registros :
    (r : Text) (off n : ℕ)
    → donde_escribir r ≡ some (off, n)
    → (donde_leer r ≡ some off) × (encontrar_tamanio_registro r ≡ n) × (off + n ≤ 112)
unfolding donde_escribir donde_leer encontrar_tamanio_registro
tabla_de_registros r off n e = ground arith

get_elem?-replicate : (n i c : ℕ) → i < n → get_elem? (replicate n c) i ≡ some c
get_elem?-replicate zero i c h = elim h [ ]
get_elem?-replicate (suc n) zero c h = refl
get_elem?-replicate (suc n) (suc i) c h = get_elem?-replicate n i c (omega arith)

abbrev escrito : Text → ℕ → ℕ → Registros → Registros
escrito valor off n regs = encima off valor (encima off (replicate n b'0') regs)

escribir-escrito :
    (valor registro : Text) (off n : ℕ) (regs : Registros)
    → donde_escribir registro ≡ some (off, n)
    → off + n ≤ length regs
    → off + length valor ≤ length regs
    → escribir_valor_en_registro valor registro regs ≡ ok (escrito valor off n regs)
unfolding escribir_valor_en_registro escribir_valor_en_registro_con_n_caracteres
escribir-escrito valor registro off n regs e h k =
    let l : length (replicate {A = ℕ} n b'0') ≡ n = length-replicate n b'0' in
    let m = length-encima off (replicate n b'0') regs in
    rw (e, escribir_valor_en_registro)
      (rw (escribir_desde-ok off (replicate n b'0') regs (omega arith), bind)
        (escribir_desde-ok off valor _ (omega arith)))

-- A value that fits its register stands at the register's start, behind it the register is filled
-- with '0', and no other byte of the block changes.
pub escribir_registro_lem :
    (valor registro : Text) (off n : ℕ) (regs : Registros)
    → donde_escribir registro ≡ some (off, n)
    → length regs ≡ 112
    → length valor ≤ n
    → (regs' : Registros) × (escribir_valor_en_registro valor registro regs ≡ ok regs')
      × ((i : ℕ) → i < length valor → get_elem? regs' (off + i) ≡ get_elem? valor i)
      × ((i : ℕ) → length valor ≤ i → i < n → get_elem? regs' (off + i) ≡ some b'0')
      × ((i : ℕ) → (i < off) ⊎ (off + n ≤ i) → get_elem? regs' i ≡ get_elem? regs i)
escribir_registro_lem valor registro off n regs e h k =
    let b = (tabla_de_registros registro off n e).2 in
    let l : length (replicate {A = ℕ} n b'0') ≡ n = length-replicate n b'0' in
    let m = length-encima off (replicate n b'0') regs in
    (
      escrito valor off n regs,
      escribir-escrito valor registro off n regs e (omega arith) (omega arith),
      λ i p. encima_dentro off valor _ i p (omega arith),
      λ i p q.
          encima_fuera off valor _ (off + i) (inr (omega arith))
          ∙ encima_dentro off (replicate n b'0') regs i (omega arith) (omega arith)
          ∙ get_elem?-replicate n i b'0' q,
      λ i p.
          encima_fuera off valor _ i (omega arith)
          ∙ encima_fuera off (replicate n b'0') regs i (omega arith),
    )

-- A longer value is not cut: all of it is written, over the registers behind, as far as the block
-- goes. Where it would go past the last byte of the block the write is a fault.
pub escribir_de_mas :
    (valor registro : Text) (off n : ℕ) (regs : Registros)
    → donde_escribir registro ≡ some (off, n)
    → length regs ≡ 112
    → n < length valor
    → ((off + length valor ≤ 112)
        × (regs' : Registros) × (escribir_valor_en_registro valor registro regs ≡ ok regs')
        × ((i : ℕ) → i < length valor → get_elem? regs' (off + i) ≡ get_elem? valor i))
      ⊎ ((112 < off + length valor) × (escribir_valor_en_registro valor registro regs ≡ fault))
unfolding escribir_valor_en_registro escribir_valor_en_registro_con_n_caracteres
escribir_de_mas valor registro off n regs e h k =
    let b = (tabla_de_registros registro off n e).2 in
    let l : length (replicate {A = ℕ} n b'0') ≡ n = length-replicate n b'0' in
    let m = length-encima off (replicate n b'0') regs in
    elim (cabe (off + length valor) 112) [
      | inl p ↦ inl (
        p,
        escrito valor off n regs,
        escribir-escrito valor registro off n regs e (omega arith) (omega arith),
        λ i q. encima_dentro off valor _ i q (omega arith),
      )
      | inr p ↦ inr (
        p,
        rw (e, escribir_valor_en_registro)
            (rw (escribir_desde-ok off (replicate n b'0') regs (omega arith), bind)
              (escribir_desde-fault off valor _ (omega arith) (omega arith))),
      )
    ]
  where
    cabe : (a b : ℕ) → (a ≤ b) ⊎ (b < a)
    cabe a b = omega arith
