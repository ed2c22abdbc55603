-- ===== src/Utils/Paquete.antt =====
-- utils.c: the interface in front of buffer.c, by packets of values with a size each. A value is the
-- list of its bytes. A negative size, which asks `malloc` for more than there is, is a fault.
pub mod RoundTrip
use tp_so20231c.Common.{
  ℕ, zero, suc, ◌+◌, ◌^◌, List, [], ◌∷◌, ◌++◌, Option, none, some, Outcome, ok, exit, fault, bind,
  ◌==◌, ltb, take, drop, length, if◌then◌else◌, Text,
}
use tp_so20231c.Common.Int.{ℤ, pos, negsuc}
use tp_so20231c.Utils.Buffer.{Buffer, Unpack, u32_bytes, of_bytes, signed32}
use tp_so20231c.Utils.Frames.{Stream}

-- `op_code`.
abbrev pub mensaje : ℕ
mensaje = 0

abbrev pub paquete : ℕ
paquete = 1

pub record Paquete : Type 0 where
  pub codigo_operacion : ℕ
  pub buffer : Buffer

-- The block of as many bytes as both callers ask for.
unfoldable pub serializar_paquete : Paquete → List ℕ
serializar_paquete p = u32_bytes p.codigo_operacion ++ (u32_bytes (length p.buffer) ++ p.buffer)

unfoldable pub crear_paquete : Paquete
crear_paquete = record { codigo_operacion = paquete; buffer = [] }

unfoldable pub agregar_a_paquete : Paquete → List ℕ → Paquete
agregar_a_paquete p valor = record p { buffer = p.buffer ++ (u32_bytes (length valor) ++ valor) }

unfoldable pub enviar_paquete : Stream → Paquete → Stream
unfolding serializar_paquete
enviar_paquete to p = to ++ serializar_paquete p

unfoldable pub enviar_mensaje : Stream → Text → Stream
unfolding enviar_paquete
enviar_mensaje to s =
    enviar_paquete to (record { codigo_operacion = mensaje; buffer = s ++ 0 ∷ [] })

-- -1 at the end of the stream.
unfoldable pub recibir_operacion : Unpack ℤ
recibir_operacion from =
    if length from == 0
    then ok (negsuc 0, from)
    else if ltb (length from) 4
    then fault
    else ok (signed32 (of_bytes (take 4 from)), drop 4 from)

-- An `int`, and as many bytes.
unfoldable pub recibir_buffer : Unpack Buffer
recibir_buffer from =
    if ltb (length from) 4
    then fault
    else let size = of_bytes (take 4 from) in
      let resto = drop 4 from in
      if ltb size (2 ^ 31)
      then if ltb (length resto) size then fault else ok (take size resto, drop size resto)
      else fault

abbrev pub con_valor : List ℕ → Option (Outcome (List (List ℕ))) → Option (Outcome (List (List ℕ)))
con_valor valor none = none
con_valor valor (some o) = some (bind o (λ valores. ok (valor ∷ valores)))

-- The loop over what is left of the buffer: one value a turn.
unfoldable pub leer_valores : ℕ → Buffer → Option (Outcome (List (List ℕ)))
unfolding recibir_buffer
leer_valores zero b = none
leer_valores (suc fuel) [] = some (ok [])
leer_valores (suc fuel) (x ∷ b) = elim (recibir_buffer (x ∷ b)) [
  | ok (valor, b') ↦ con_valor valor (leer_valores fuel b')
  | exit ↦ some exit
  | fault ↦ some fault
]

unfoldable pub recibir_paquete : ℕ → Stream → Option (Outcome (List (List ℕ) × Stream))
unfolding recibir_buffer leer_valores
recibir_paquete fuel from = elim (recibir_buffer from) [
  | ok (b, from') ↦ elim (leer_valores fuel b) [
    | none ↦ none
    | some o ↦ some (bind o (λ valores. ok (valores, from')))
  ]
  | exit ↦ some exit
  | fault ↦ some fault
]
