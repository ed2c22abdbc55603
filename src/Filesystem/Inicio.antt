-- ===== src/Filesystem/Inicio.antt =====
-- filesystem.c: the bitmap when the program starts.
use tp_so20231c.Common.{
  ℕ, zero, suc, List, [], ◌∷◌, none, some, Outcome, ok, fault, bind, Text, codes, str_eq, ◌||◌,
  if◌then◌else◌,
}
use tp_so20231c.Common.Int.{ℤ, pos, ◌-ℤ◌, ltb_ℤ, pos_part}
use tp_so20231c.Utils.Buffer.{of_bytes}
use tp_so20231c.Cpu.Enteros.{div_int}
use tp_so20231c.Memoria.Bitarray.{Bitarray}
use tp_so20231c.Memoria.Solicitudes.{leer_bloque}
use tp_so20231c.Filesystem.{Fcb, set_bit, clean_bit, entrada}
use tp_so20231c.Filesystem.Servidor.{Directorio, fcb_de}

module _ (B : Bitarray) where
  unfoldable pub limpiar_bloques : ℕ → ℕ → B.Rep → Outcome B.Rep
  limpiar_bloques zero i bitmap = ok bitmap
  limpiar_bloques (suc n) i bitmap =
      bind (clean_bit B bitmap i) (λ bitmap'. limpiar_bloques n (suc i) bitmap')

  -- Whatever the file of the bitmap held, every block is free.
  unfoldable pub crear_bit_map : ℕ → B.Rep → Outcome B.Rep
  unfolding limpiar_bloques
  crear_bit_map block_count bitmap = limpiar_bloques block_count 0 bitmap

  module _ (block_size : ℤ) (archivo_bloques : List ℕ) where
    -- The entries of the indirect block, from i on.
    unfoldable pub marcar_indirectos : ℕ → ℕ → Fcb → B.Rep → Outcome B.Rep
    unfolding entrada of_bytes
    marcar_indirectos zero i fcb bitmap = ok bitmap
    marcar_indirectos (suc n) i fcb bitmap =
        bind
          (leer_bloque archivo_bloques (entrada B block_size fcb.puntero_indirecto (pos i)) (pos 4))
          (λ nuevo_puntero.
            bind (set_bit B bitmap (of_bytes nuevo_puntero))
              (λ bitmap'. marcar_indirectos n (suc i) fcb bitmap'))

    unfoldable pub marcar_bloques : Fcb → B.Rep → Outcome B.Rep
    unfolding marcar_indirectos div_int ◌-ℤ◌
    marcar_bloques fcb bitmap = bind (set_bit B bitmap fcb.puntero_directo) (λ b1.
        bind (set_bit B b1 fcb.puntero_indirecto) (λ b2.
          bind (div_int fcb.tamanio_archivo block_size)
            (λ cant_punteros. marcar_indirectos (pos_part (cant_punteros -ℤ pos 1)) 0 fcb b2)))

    -- The names as `readdir` gives them: the loop ends at the directory itself or the one above it,
    -- and at the end of the directory it follows NULL.
    unfoldable pub leer_fcbs : Directorio → List Text → B.Rep → Outcome B.Rep
    unfolding str_eq fcb_de marcar_bloques
    leer_fcbs dir [] bitmap = fault
    leer_fcbs dir (d_name ∷ resto) bitmap =
        if str_eq d_name (codes ".") || str_eq d_name (codes "..")
        then ok bitmap
        else elim (fcb_de dir d_name) [
          | none ↦ fault
          | some fcb ↦
              bind
                (if ltb_ℤ (pos 0) fcb.tamanio_archivo then marcar_bloques fcb bitmap else ok bitmap)
                (λ bitmap'. leer_fcbs dir resto bitmap')
        ]
