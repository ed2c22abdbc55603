-- ===== src/Utils/Instructions.antt =====
-- utils.c: the instructions of a process on the wire: packed by the console
-- (`empaquetar_instruccion`), read by the kernel (`obtener_lista_instrucciones`), then sent to and
-- fro between the kernel and the CPU (`empaquetar_lista_instrucciones` and its reader).
pub mod RoundTrip
pub mod Obtener
use tp_so20231c.Common.{
  ℕ, zero, suc, List, [], ◌∷◌, Option, none, some, Bool, Outcome, ok, exit, fault, bind, Text, ◌==◌,
  ◌||◌, if◌then◌else◌,
}
use tp_so20231c.Utils.Tipo
use tp_so20231c.Utils.Types.{Instruccion}
use tp_so20231c.Utils.Buffer.{
  Buffer, Unpack, ◌>>=◌, pure, pack_u32, unpack_u32, buffer_pack_string, buffer_unpack_string,
}

-- The three variables `parametro1`, `parametro2`, `parametro3` of a reader: they keep the texts of
-- an earlier instruction where the present one has fewer, and first hold what `malloc` returned.
abbrev pub Parametros : Type 0
Parametros = Text × Text × Text

unfoldable pub armar_instruccion : ℕ → Parametros → Instruccion
armar_instruccion nombre (p1, p2, p3) = record {
  nombre = nombre;
  parametro1 = some p1;
  parametro2 = some p2;
  parametro3 = some p3;
}

unfoldable pub cuantos_parametros : ℕ → ℕ
cuantos_parametros nombre =
    if (nombre == Tipo.f_read) || (nombre == Tipo.f_write)
    then 3
    else if (nombre == Tipo.io)
        || ((nombre == Tipo.wait)
            || ((nombre == Tipo.signal)
                || ((nombre == Tipo.f_open)
                    || ((nombre == Tipo.delete_segment) || (nombre == Tipo.f_close)))))
    then 1
    else if (nombre == Tipo.exit) || (nombre == Tipo.yield)
    then 0
    else 2

-- `buffer_pack_string` of a pointer: `strlen(NULL)` is a fault.
unfoldable pub pack_parametro : Buffer → Option Text → Outcome Buffer
pack_parametro buffer none = fault
pack_parametro buffer (some s) = ok (buffer_pack_string buffer s)

-- The console packs as many parameters as stand in front of the first NULL.
unfoldable pub empaquetar_instruccion : Instruccion → Buffer → Buffer
empaquetar_instruccion instruc buffer =
    let b = pack_u32 buffer instruc.nombre in
    elim instruc.parametro1 [
      | none ↦ b
      | some p1 ↦ elim instruc.parametro2 [
        | none ↦ buffer_pack_string b p1
        | some p2 ↦ elim instruc.parametro3 [
          | none ↦ buffer_pack_string (buffer_pack_string b p1) p2
          | some p3 ↦ buffer_pack_string (buffer_pack_string (buffer_pack_string b p1) p2) p3
        ]
      ]
    ]

-- The body of the loop of `empaquetar_lista_instrucciones`, behind the packing of the name.
unfoldable pub empaquetar_parametros : ℕ → Buffer → Instruccion → Outcome Buffer
unfolding pack_parametro
empaquetar_parametros parametros buffer aux =
    if parametros == 3
    then bind (pack_parametro buffer aux.parametro1)
        (λ b. bind (pack_parametro b aux.parametro2) (λ c. pack_parametro c aux.parametro3))
    else if parametros == 2
    then bind (pack_parametro buffer aux.parametro1) (λ b. pack_parametro b aux.parametro2)
    else if parametros == 1
    then pack_parametro buffer aux.parametro1
    else ok buffer

unfoldable pub empaquetar_lista_instrucciones : Buffer → ℕ → List Instruccion → Outcome Buffer
unfolding empaquetar_parametros cuantos_parametros
empaquetar_lista_instrucciones buffer zero lista = ok buffer
empaquetar_lista_instrucciones buffer (suc longitud) [] = fault
empaquetar_lista_instrucciones buffer (suc longitud) (aux ∷ lista) =
    bind (empaquetar_parametros (cuantos_parametros aux.nombre) (pack_u32 buffer aux.nombre) aux)
      (λ b. empaquetar_lista_instrucciones b longitud lista)

unfoldable pub desempaquetar_parametros : ℕ → Parametros → Unpack Parametros
desempaquetar_parametros parametros (p1, p2, p3) =
    if parametros == 3
    then (do
      a ← buffer_unpack_string
      b ← buffer_unpack_string
      c ← buffer_unpack_string
      pure (a, b, c))
    else if parametros == 2
    then (do a ← buffer_unpack_string; b ← buffer_unpack_string; pure (a, b, p3))
    else if parametros == 1
    then (do a ← buffer_unpack_string; pure (a, p2, p3))
    else pure (p1, p2, p3)

unfoldable pub desempaquetar_lista_instrucciones : ℕ → Parametros → Unpack (List Instruccion)
unfolding desempaquetar_parametros cuantos_parametros armar_instruccion
desempaquetar_lista_instrucciones zero ps = pure []
desempaquetar_lista_instrucciones (suc longitud) ps = do
  nombre ← unpack_u32
  leidos ← desempaquetar_parametros (cuantos_parametros nombre) ps
  resto ← desempaquetar_lista_instrucciones longitud leidos
  pure (armar_instruccion nombre leidos ∷ resto)
