-- ===== src/Filesystem.antt =====
-- filesystem/src/operaciones.c: the search for a free block and the truncation of a file. A file is
-- its control block; `archivo_bloques` is its bytes.
pub mod Truncar
pub mod Bloques
pub mod Servidor
pub mod Inicio
use tp_so20231c.Common.{
  ℕ, zero, suc, ◌+◌, ◌*◌, ◌%◌, ◌^◌, List, Outcome, ok, fault, bind, ltb, ◌==◌, if◌then◌else◌,
}
use tp_so20231c.Common.Int.{ℤ, pos, negsuc, ◌+ℤ◌, ◌-ℤ◌, ◌*ℤ◌, ltb_ℤ, pos_part}
use tp_so20231c.Utils.Buffer.{u32_bytes, of_bytes, pattern32}
use tp_so20231c.Utils.Segments.{int_eq}
use tp_so20231c.Cpu.Enteros.{div_int}
use tp_so20231c.Memoria.Bitarray.{Bitarray}
use tp_so20231c.Memoria.Solicitudes.{leer_bloque, escribir_bloque}

-- The values of a file's configuration.
pub record Fcb : Type 0 where
  pub tamanio_archivo : ℤ
  pub puntero_directo : ℕ
  pub puntero_indirecto : ℕ

module _ (B : Bitarray) where
  pub record Disco : Type 0 where
    pub fcb : Fcb
    pub archivo_bloques : List ℕ
    pub bitmap : B.Rep

  -- The `for` of `n` turns at most, from `i` on.
  unfoldable pub proximo_libre : B.Rep → ℕ → ℕ → ℕ → ℕ → ℕ
  proximo_libre bitmap zero i estado bloque_libre = bloque_libre
  proximo_libre bitmap (suc n) i estado bloque_libre =
      let resto = proximo_libre bitmap n (suc i) (if B.test bitmap i then 1 else 0) i in
      if estado == 1 then resto else bloque_libre

  unfoldable pub buscar_proximo_bloque_libre : B.Rep → ℕ
  unfolding proximo_libre
  buscar_proximo_bloque_libre bitmap = proximo_libre bitmap B.bits 0 0 0

  -- `bitarray_set_bit` and `bitarray_clean_bit`, out of the block a fault.
  abbrev pub set_bit : B.Rep → ℕ → Outcome B.Rep
  set_bit bitmap i = if ltb i B.bits then ok (B.set_bit bitmap i) else fault

  abbrev pub clean_bit : B.Rep → ℕ → Outcome B.Rep
  clean_bit bitmap i = if ltb i B.bits then ok (B.clean_bit bitmap i) else fault

  module _ (block_size : ℤ) where
    -- The address of an entry of the indirect block.
    unfoldable pub entrada : ℕ → ℤ → ℤ
    unfolding ◌+ℤ◌ ◌*ℤ◌ pattern32
    entrada puntero_indirecto k =
        pos (puntero_indirecto * pattern32 block_size % 2 ^ 32) +ℤ k *ℤ pos 4

    unfoldable pub quitar_uno : ℤ → ℕ → Disco → Outcome Disco
    unfolding entrada ◌-ℤ◌ of_bytes
    quitar_uno bloques_actuales i d =
        bind
          (leer_bloque d.archivo_bloques
            (entrada d.fcb.puntero_indirecto (bloques_actuales -ℤ pos i)) (pos 4))
          (λ puntero.
            bind (clean_bit d.bitmap (of_bytes puntero))
              (λ bitmap. ok (record d { bitmap = bitmap })))

    unfoldable pub quitar_bloques : ℤ → ℕ → ℕ → Disco → Outcome Disco
    unfolding quitar_uno
    quitar_bloques bloques_actuales zero i d = ok d
    quitar_bloques bloques_actuales (suc n) i d =
        bind (quitar_uno bloques_actuales i d) (λ d'. quitar_bloques bloques_actuales n (suc i) d')

    unfoldable pub agregar_uno : ℤ → ℕ → Disco → Outcome Disco
    unfolding entrada ◌+ℤ◌ buscar_proximo_bloque_libre u32_bytes int_eq
    agregar_uno bloques_actuales i d =
        let bloque_libre = buscar_proximo_bloque_libre d.bitmap in
        bind (set_bit d.bitmap bloque_libre) (λ bitmap.
          if int_eq bloques_actuales (pos 0)
          then ok
              (record d { bitmap = bitmap; fcb = record d.fcb { puntero_directo = bloque_libre } })
          else if int_eq bloques_actuales (pos 1)
          then ok (record d {
            bitmap = bitmap;
            fcb = record d.fcb { puntero_indirecto = bloque_libre };
          })
          else bind
              (escribir_bloque d.archivo_bloques
                (entrada d.fcb.puntero_indirecto (bloques_actuales +ℤ pos i))
                (u32_bytes bloque_libre))
              (λ bloques. ok (record d { bitmap = bitmap; archivo_bloques = bloques })))

    unfoldable pub agregar_bloques : ℤ → ℕ → ℕ → Disco → Outcome Disco
    unfolding agregar_uno
    agregar_bloques bloques_actuales zero i d = ok d
    agregar_bloques bloques_actuales (suc n) i d =
        bind (agregar_uno bloques_actuales i d)
          (λ d'. agregar_bloques bloques_actuales n (suc i) d')

    -- A negative number of blocks runs no turn.
    unfoldable pub truncar_archivo : ℤ → Disco → Outcome Disco
    unfolding div_int quitar_bloques agregar_bloques ◌-ℤ◌
    truncar_archivo size d = bind (div_int d.fcb.tamanio_archivo block_size) (λ bloques_actuales.
        bind
          (if ltb_ℤ size d.fcb.tamanio_archivo
            then bind (div_int size block_size)
                (λ q. quitar_bloques bloques_actuales (pos_part (bloques_actuales -ℤ q)) 0 d)
            else if ltb_ℤ d.fcb.tamanio_archivo size
            then bind (div_int size block_size)
                (λ q. agregar_bloques bloques_actuales (pos_part (q -ℤ bloques_actuales)) 0 d)
            else ok d)
          (λ d'. ok (record d' { fcb = record d'.fcb { tamanio_archivo = size } })))
