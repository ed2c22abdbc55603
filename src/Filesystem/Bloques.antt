-- ===== src/Filesystem/Bloques.antt =====
-- operaciones.c: reading and writing a file by its blocks.
use tp_so20231c.Common.{
  ℕ, zero, suc, ◌+◌, ◌*◌, ◌/◌, ◌%◌, ◌^◌, List, Outcome, ok, fault, bind, ◌==◌, if◌then◌else◌,
}
use tp_so20231c.Common.Int.{ℤ, pos, ◌+ℤ◌, ◌-ℤ◌, ◌*ℤ◌, ltb_ℤ, pos_part}
use tp_so20231c.Utils.Types.{RtaKernelFs}
use tp_so20231c.Utils.Buffer.{pattern32, signed32}
use tp_so20231c.Utils.Segments.{int_eq}
use tp_so20231c.Cpu.Enteros.{div_int}
use tp_so20231c.Memoria.Solicitudes.{leer_bloque, escribir_bloque}
use tp_so20231c.Filesystem.{Fcb}

-- `memcpy` of `n` bytes, from a place in one block to a place in another.
unfoldable pub copiar : List ℕ → ℤ → List ℕ → ℤ → ℤ → Outcome (List ℕ)
copiar destino d origen o n =
    bind (leer_bloque origen o n) (λ datos. escribir_bloque destino d datos)

-- `base` is the address that the blocks are mapped to. Behind the first block it is the address of
-- the entry that is copied, and not the entry: its four low bytes.
module _ (base : ℕ) (block_size : ℤ) where
  -- Where a block starts.
  unfoldable pub comienzo : ℕ → ℕ
  unfolding pattern32
  comienzo bloque = bloque * pattern32 block_size % 2 ^ 32

  unfoldable pub encontrar_bloque_n : Fcb → ℤ → ℕ
  unfolding comienzo pattern32 int_eq ◌-ℤ◌ ◌*ℤ◌
  encontrar_bloque_n fcb n =
      if int_eq n (pos 0)
      then fcb.puntero_directo
      else (base + comienzo fcb.puntero_indirecto + pattern32 ((n -ℤ pos 1) *ℤ pos 4)) % 2 ^ 32

  -- The block of the pointer and the offset in it; `puntero` and so the division are unsigned.
  unfoldable pub posicion : RtaKernelFs → Outcome (ℤ × ℤ)
  unfolding pattern32 signed32
  posicion rta_kernel =
      let b = pattern32 block_size in
      if b == 0
      then fault
      else ok (signed32 (rta_kernel.puntero / b), signed32 (rta_kernel.puntero % b))

  -- The loop of `n` turns: four bytes of each block behind the first. What is left of the size, the
  -- number of the block, and how much is written.
  unfoldable pub escribir_bloques :
      ℕ → Fcb → ℤ → ℤ → ℤ → List ℕ → List ℕ → Outcome (ℤ × ℤ × ℤ × List ℕ)
  unfolding encontrar_bloque_n comienzo copiar ◌+ℤ◌ ◌-ℤ◌
  escribir_bloques zero fcb size bloque escrito datos bloques = ok (size, bloque, escrito, bloques)
  escribir_bloques (suc n) fcb size bloque escrito datos bloques =
      let sig = bloque +ℤ pos 1 in
      bind (copiar bloques (pos (comienzo (encontrar_bloque_n fcb sig))) datos escrito (pos 4))
        (λ bloques'. escribir_bloques n fcb (size -ℤ pos 4) sig (escrito +ℤ pos 4) datos bloques')

  unfoldable pub escribir_archivo : RtaKernelFs → Fcb → List ℕ → List ℕ → Outcome (List ℕ)
  unfolding posicion encontrar_bloque_n comienzo copiar escribir_bloques div_int ◌+ℤ◌ ◌-ℤ◌
  escribir_archivo rta_kernel fcb datos bloques = bind (posicion rta_kernel) (λ p.
      let primero = block_size -ℤ p.1 in
      let size = rta_kernel.size -ℤ p.1 in
      bind
        (copiar bloques (pos (comienzo (encontrar_bloque_n fcb (p.0))) +ℤ p.1) datos (pos 0)
          primero)
        (λ bloques1. bind (div_int size block_size) (λ cant.
          bind (escribir_bloques (pos_part cant) fcb size (p.0) primero datos bloques1) (λ r.
            if ltb_ℤ (pos 0) (r.0)
            then copiar (r.3) (pos (comienzo (encontrar_bloque_n fcb (r.1 +ℤ pos 1)))) datos (r.2)
                (r.0)
            else ok (r.3)))))

  -- Each block behind the first is read to the beginning of what is read.
  unfoldable pub leer_bloques : ℕ → Fcb → ℤ → ℤ → List ℕ → List ℕ → Outcome (ℤ × ℤ × List ℕ)
  unfolding encontrar_bloque_n comienzo copiar ◌+ℤ◌ ◌-ℤ◌
  leer_bloques zero fcb size bloque leido bloques = ok (size, bloque, leido)
  leer_bloques (suc n) fcb size bloque leido bloques =
      let sig = bloque +ℤ pos 1 in
      bind (copiar leido (pos 0) bloques (pos (comienzo (encontrar_bloque_n fcb sig))) (pos 4))
        (λ leido'. leer_bloques n fcb (size -ℤ pos 4) sig leido' bloques)

  -- `nuevo` is the block of `size` bytes that `malloc` returns.
  unfoldable pub leer_archivo : List ℕ → RtaKernelFs → Fcb → List ℕ → Outcome (List ℕ)
  unfolding posicion encontrar_bloque_n comienzo copiar leer_bloques div_int ◌+ℤ◌ ◌-ℤ◌
  leer_archivo nuevo rta_kernel fcb bloques = bind (posicion rta_kernel) (λ p.
      let size = rta_kernel.size -ℤ p.1 in
      bind
        (copiar nuevo (pos 0) bloques (pos (comienzo (encontrar_bloque_n fcb (p.0))) +ℤ p.1)
          (block_size -ℤ p.1))
        (λ leido1. bind (div_int size block_size) (λ cant.
          bind (leer_bloques (pos_part cant) fcb size (p.0) leido1 bloques) (λ r.
            if ltb_ℤ (pos 0) (r.0)
            then copiar (r.2) (pos 0) bloques
                (pos (comienzo (encontrar_bloque_n fcb (r.1 +ℤ pos 1)))) (r.0)
            else ok (r.2)))))
