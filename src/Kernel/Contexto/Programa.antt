-- ===== src/Kernel/Contexto/Programa.antt =====
-- From a console's file to the CPU, by way of the kernel.
use tp_so20231c.Common.{ℕ, ◌<◌, ◌^◌, List, [], ◌∷◌, Option, Text, IsText}
use tp_so20231c.Utils.Types.{CpuResponse}
use tp_so20231c.Utils.Buffer.{Buffer}
use tp_so20231c.Utils.Buffer.Decodes.{Decodes}
use tp_so20231c.Utils.Buffer.Laws.{IsInt}
use tp_so20231c.Utils.Instructions.{cuantos_parametros}
use tp_so20231c.Utils.Instructions.RoundTrip.{Present}

-- A name with its parameters that can be sent.
abbrev Entera : ℕ × List (Option Text) → Type 0
Entera v = (v.0 < 2 ^ 32) × Present (cuantos_parametros (v.0)) (v.1)

abbrev Enteras : List (ℕ × List (Option Text)) → Type 0
Enteras [] = Unit {0}
Enteras (v ∷ vs) = Entera v × Enteras vs

-- What of the block that `malloc` returned for a context is sent all the same.
pub record IsNuevo (c : CpuResponse) : Type 0 where
  pub flag : c.flag < 2 ^ 32
  pub tiempo : IsInt c.tiempo
  pub recurso : IsText c.recurso
  pub size_segmento : IsInt c.size_segmento
  pub id_segmento : IsInt c.id_segmento
  pub posicion_puntero : IsInt c.posicion_puntero
  pub direccion_fisica : IsInt c.direccion_fisica
