-- ===== src/Tests/Consola.antt =====
-- parsear.c: a file of four words, read by the console and by the kernel.
use tp_so20231c.Common.{refl, List, [], ◌∷◌, false, IsText, codes, arith, ℕ, ◌+◌, ◌/◌, ◌*◌}
use tp_so20231c.Utils.Tipo
use tp_so20231c.Utils.Buffer.{Buffer}
use tp_so20231c.Consola.{Lector, caso_de}
use tp_so20231c.Consola.Envio.{IsPrograma, CabePrograma}
use tp_so20231c.Consola.Envio.Lineas.{Linea, l_dos, l_yield}

abbrev pub lineas : List Linea
lineas = l_dos (codes "SET") Tipo.set (codes "AX") (codes "HOLA") ∷ l_yield (codes "YIELD") ∷ []

abbrev pub lector : Lector
lector = record {
  nombre = 0;
  con1 = false;
  con2 = false;
  con3 = false;
  opchar1 = [];
  opchar2 = [];
  opchar3 = [];
}

ax-IsText : IsText (codes "AX")
ax-IsText = record { no_nul = ground arith; short = omega arith }

hola-IsText : IsText (codes "HOLA")
hola-IsText = record { no_nul = ground arith; short = omega arith }

pub lineas-IsPrograma : IsPrograma false lineas
unfolding caso_de
lineas-IsPrograma = ((refl, ax-IsText, hola-IsText), (refl, tt))

-- A `malloc` that rounds up to a multiple of 32.
abbrev pub de_a_32 : ℕ → ℕ
de_a_32 n = (n + 31) / 32 * 32

pub lineas-caben : CabePrograma de_a_32 lineas
lineas-caben = ((omega arith, omega arith, omega arith), (omega arith, (omega arith, omega arith)))
