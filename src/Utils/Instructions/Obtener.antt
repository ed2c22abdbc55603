-- ===== src/Utils/Instructions/Obtener.antt =====
-- utils.c, `obtener_lista_instrucciones`: the kernel reads a console's program up to its EXIT.
pub mod Turnos
use tp_so20231c.Common.{
  ℕ, zero, suc, List, [], ◌∷◌, Option, none, some, Bool, true, false, Outcome, ok, exit, fault,
  Text, ◌==◌, ◌||◌, if◌then◌else◌,
}
use tp_so20231c.Utils.Tipo
use tp_so20231c.Utils.Types.{Instruccion}
use tp_so20231c.Utils.Buffer.{Buffer, Unpack, ◌>>=◌, pure, unpack_u32}
use tp_so20231c.Utils.Instructions.{Parametros, armar_instruccion, desempaquetar_parametros}

-- How many texts the case of the `switch` reads; EXIT, YIELD and an unknown name read none.
unfoldable pub parametros_del_caso : ℕ → ℕ
parametros_del_caso nombre =
    if (nombre == Tipo.f_read) || (nombre == Tipo.f_write)
    then 3
    else if (nombre == Tipo.set)
        || ((nombre == Tipo.mov_in)
            || ((nombre == Tipo.mov_out)
                || ((nombre == Tipo.f_truncate)
                    || ((nombre == Tipo.f_seek) || (nombre == Tipo.create_segment)))))
    then 2
    else if (nombre == Tipo.io)
        || ((nombre == Tipo.wait)
            || ((nombre == Tipo.signal)
                || ((nombre == Tipo.f_open)
                    || ((nombre == Tipo.f_close) || (nombre == Tipo.delete_segment)))))
    then 1
    else 0

-- One turn of the loop: the name, and the texts of its case.
unfoldable pub leer_instruccion : Parametros → Unpack (ℕ × Parametros)
unfolding parametros_del_caso desempaquetar_parametros
leer_instruccion ps = do
  nombre ← unpack_u32
  leidos ← desempaquetar_parametros (parametros_del_caso nombre) ps
  pure (nombre, leidos)

abbrev pub con_cabeza :
    Instruccion
    → Option (Outcome (List Instruccion × Buffer))
    → Option (Outcome (List Instruccion × Buffer))
con_cabeza i none = none
con_cabeza i (some (ok (l, b))) = some (ok (i ∷ l, b))
con_cabeza i (some exit) = some exit
con_cabeza i (some fault) = some fault

-- `while(!exit)`, on fuel: `none` is a loop that has not ended within the given turns.
unfoldable pub obtener_lista_instrucciones :
    ℕ → Parametros → Buffer → Option (Outcome (List Instruccion × Buffer))
unfolding leer_instruccion armar_instruccion
obtener_lista_instrucciones zero ps buffer = none
obtener_lista_instrucciones (suc fuel) ps buffer = elim (leer_instruccion ps buffer) [
  | ok ((nombre, leidos), b) ↦
      let resto = obtener_lista_instrucciones fuel leidos b in
      if nombre == Tipo.exit
      then some (ok (armar_instruccion nombre leidos ∷ [], b))
      else con_cabeza (armar_instruccion nombre leidos) resto
  | exit ↦ some exit
  | fault ↦ some fault
]
