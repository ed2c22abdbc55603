-- ===== src/Kernel/Recursos.antt =====
-- planificador.c: the resources. `recurso` is the array of names up to its NULL,
-- `instancias_recursos` the array of their instances.
pub mod Leyes
use tp_so20231c.Common.{
  ℕ, zero, suc, ◌+◌, List, [], ◌∷◌, Option, none, some, Text, str_eq, get_elem?, set, length,
  if◌then◌else◌,
}
use tp_so20231c.Common.Int.{ℤ, pos, negsuc, ◌-ℤ◌, ltb_ℤ}

-- The `for` from index i on; -1 is `negsuc 0`.
unfoldable pub buscar_posicion_desde : ℕ → List Text → Text → ℤ
unfolding str_eq
buscar_posicion_desde i [] recurso = negsuc 0
buscar_posicion_desde i (r ∷ rs) recurso =
    let resto = buscar_posicion_desde (suc i) rs recurso in
    if str_eq r recurso then pos i else resto

unfoldable pub buscar_posicion_recurso : List Text → Text → ℤ
unfolding buscar_posicion_desde
buscar_posicion_recurso recursos recurso = buscar_posicion_desde 0 recursos recurso

-- Whether an instance is given, and the instances left; `none` is an index out of the array.
unfoldable pub hay_elementos_wait : List ℤ → ℕ → Option (ℤ × List ℤ)
unfolding ◌-ℤ◌
hay_elementos_wait instancias posicion = elim (get_elem? instancias posicion) [
  | none ↦ none
  | some n ↦
      if ltb_ℤ n (pos 0)
      then some (negsuc 0, instancias)
      else some (pos 1, set instancias posicion (n -ℤ pos 1))
]
