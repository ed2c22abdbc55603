-- ===== src/Consola/Envio.antt =====
-- From the console's file to the kernel's list: what `parsear_pseudocodigo` packs is what
-- `obtener_lista_instrucciones` unpacks.
pub mod Lineas
pub mod Paso
use tp_so20231c.Common.{
  ℕ, ◌+◌, ◌<◌, ◌≡◌, sym, List, [], ◌∷◌, ◌++◌, append-nil, ok, Option, none, some, Bool, true, false,
  Text, codes, ◌==◌, map, length, ◌≤◌,
}
use tp_so20231c.Utils.Tipo
use tp_so20231c.Utils.Types.{Instruccion}
use tp_so20231c.Utils.Buffer.{Buffer, pack_u32}
use tp_so20231c.Utils.Buffer.Decodes.{Decodes}
use tp_so20231c.Utils.Instructions.{Parametros, empaquetar_instruccion}
use tp_so20231c.Utils.Instructions.RoundTrip.{visible}
use tp_so20231c.Utils.Instructions.Obtener.{
  leer_instruccion, obtener_lista_instrucciones, parametros_del_caso,
}
use tp_so20231c.Consola.{
  Caso, salida, caso_de, Lector, rama, instruc, Parseo, listo, parsear_pseudocodigo,
}
use Lineas.{Linea, palabras, significado, IsLinea, deja, CabeLinea, peso_linea}

-- The words of a file: the lines, then EXIT, then anything.
abbrev pub archivo : List Linea → List Text → List Text
archivo [] cola = codes "EXIT" ∷ cola
archivo (l ∷ ls) cola = palabras l ++ archivo ls cola

-- Every line is well; no F_SEEK follows an F_READ or F_WRITE with only F_SEEKs between them.
abbrev pub IsPrograma : Bool → List Linea → Type 0
IsPrograma con3 [] = Unit {0}
IsPrograma con3 (l ∷ ls) = IsLinea con3 l × IsPrograma (deja l) ls

-- The blocks of the console hold the instruction, its words and the operands of all lines.
abbrev pub CabePrograma : (ℕ → ℕ) → List Linea → Type 0
CabePrograma usable [] = (32 ≤ usable 4) × (4 < usable 8)
CabePrograma usable (l ∷ ls) = CabeLinea usable l × CabePrograma usable ls

-- The bytes of a program, 4 of them for its EXIT.
abbrev pub peso : List Linea → ℕ
peso [] = 4
peso (l ∷ ls) = peso_linea l + peso ls

abbrev pub significados : List Linea → List (ℕ × List (Option Text))
significados [] = (Tipo.exit, []) ∷ []
significados (l ∷ ls) = significado l ∷ significados ls

-- The two loops over a whole file, on enough fuel.
record Viaje (usable : ℕ → ℕ) (ls : List Linea) (cola : List Text) (r : Lector) (ps : Parametros)
    : Type 0 where
  bytes : List ℕ
  lista : List Instruccion
  empaca :
      (fuel : ℕ) (buf : Buffer)
      → length ls < fuel
      → parsear_pseudocodigo usable fuel (archivo ls cola) r buf ≡ listo (buf ++ bytes)
  lee :
      (fuel : ℕ) (rest : Buffer)
      → length ls < fuel
      → obtener_lista_instrucciones fuel ps (bytes ++ rest) ≡ some (ok (lista, rest))
  visto : map visible lista ≡ significados ls
  pesa : length bytes ≡ peso ls
