-- ===== src/Tests/Filesystem.antt =====
-- operaciones.c: a disk of blocks of four bytes.
use tp_so20231c.Common.{
  ◌/◌, ◌<◌, ◌≡◌, refl, [], ◌∷◌, ◌⊎◌, ok, bind, Outcome, Bool, true, false, arith, ◌==◌,
}
use tp_so20231c.Common.Int.{pos}
use tp_so20231c.Filesystem.{Disco, truncar_archivo}
use tp_so20231c.Filesystem.Truncar.{Cero, con_tamanio, truncar_archivo_lem}
use tp_so20231c.Tests.Memoria.{bits}

-- Block 0 belongs to another file.
abbrev disco : Disco bits
disco = record {
  fcb = record { tamanio_archivo = pos 0; puntero_directo = 7; puntero_indirecto = 7 };
  archivo_bloques = 1 ∷ 2 ∷ 3 ∷ 4 ∷ 5 ∷ 0 ∷ 0 ∷ 0 ∷ [];
  bitmap = λ i. i == 0;
}

truncar_archivo_example :
    ((9 / 4 ≡ 0 / 4) × (truncar_archivo bits (pos 4) (pos 9) disco ≡ ok (con_tamanio bits disco 9)))
    ⊎ ((0 / 4 < 9 / 4)
        × ((d' : Disco bits) × (truncar_archivo bits (pos 4) (pos 9) disco ≡ ok d')
            × (d'.fcb.tamanio_archivo ≡ pos 9)
            × Cero bits (0 / 4) disco d'))
truncar_archivo_example =
    truncar_archivo_lem bits (omega arith) 0 4 9 disco refl (omega arith) (omega arith)

-- A file of one block of four, whose indirect block is block 0, is emptied: entry 1 is block 5.
abbrev uno : Disco bits
uno = record {
  fcb = record { tamanio_archivo = pos 4; puntero_directo = 3; puntero_indirecto = 0 };
  archivo_bloques = 1 ∷ 2 ∷ 3 ∷ 4 ∷ 5 ∷ 0 ∷ 0 ∷ 0 ∷ [];
  bitmap = λ i. true;
}

abbrev marcas : Outcome (Disco bits) → Outcome (Bool × Bool)
marcas o = bind o (λ d. ok (d.bitmap 5, d.bitmap 3))

libera : marcas (truncar_archivo bits (pos 4) (pos 0) uno) ≡ ok (false, true)
unfolding truncar_archivo
libera = refl
