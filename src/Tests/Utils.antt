-- ===== src/Tests/Utils.antt =====
-- buffer.c and utils.c: frames, the handshake, instructions, segments, contexts.
use tp_so20231c.Common.{
  ℕ, ◌≡◌, refl, List, [], ◌∷◌, ◌++◌, none, some, ok, Text, IsText, codes, map, arith, ◌⊎◌, ◌≢◌,
  length, ◌<◌, ◌^◌,
}
use tp_so20231c.Common.Int.{pos, negsuc}
use tp_so20231c.Utils.Tipo
use tp_so20231c.Utils.Flag
use tp_so20231c.Utils.Saludo
use tp_so20231c.Utils.Types.{Instruccion, TablaSegmento, CpuResponse, RtaKernelFs}
use tp_so20231c.Utils.Buffer.{Buffer}
use tp_so20231c.Utils.Buffer.Decodes.{Decodes}
use tp_so20231c.Utils.Buffer.Laws.{signed32-pattern32}
use tp_so20231c.Utils.Buffer.{signed32, pattern32}
use tp_so20231c.Utils.Segments.RoundTrip.{IsRow}
use tp_so20231c.Utils.Instructions.{Parametros, cuantos_parametros}
use tp_so20231c.Utils.Instructions.RoundTrip.{IsComplete, visible}
use tp_so20231c.Utils.Instructions.Obtener.{obtener_lista_instrucciones}
use tp_so20231c.Utils.Instructions.Obtener.Turnos.{obtener_termina_siempre}
use tp_so20231c.Utils.Buffer.{u32_bytes}
use tp_so20231c.Utils.Paquete.{
  mensaje, paquete, crear_paquete, agregar_a_paquete, enviar_paquete, enviar_mensaje,
  recibir_operacion, recibir_buffer, recibir_paquete,
}
use tp_so20231c.Utils.Paquete.RoundTrip.{agregar_todos, paquete_llega}
use tp_so20231c.Utils.Frames.{Stream, stream_send_empty_buffer, handshake}
use tp_so20231c.Utils.Frames.Laws.{handshake_lem}
use tp_so20231c.Utils.Contexto.{
  enviar_instruccion_kernel, desempaquetar_cpu_response, enviar_archivo_fs, recv_peticion_fs_kernel,
}
use tp_so20231c.Utils.Contexto.RoundTrip.{
  IsContexto, recibido, recv_peticion-enviar_archivo, contexto_llega,
}

abbrev ax : Text
ax = codes "AX"

ax-IsText : IsText ax
ax-IsText = record { no_nul = ground arith; short = omega arith }

abbrev disco : Text
disco = codes "DISCO"

disco-IsText : IsText disco
disco-IsText = record { no_nul = ground arith; short = omega arith }

entero_llega_example : signed32 (pattern32 (negsuc 4)) ≡ negsuc 4
entero_llega_example = signed32-pattern32 (negsuc 4) (omega arith)

abbrev saludo : List ℕ
saludo = stream_send_empty_buffer [] Saludo.hs_cpu ++ 9 ∷ []

handshake_example :
    ((Saludo.hs_cpu ≡ Saludo.hs_cpu)
      × (handshake Saludo.hs_cpu saludo []
          ≡ ok (pos 1, 9 ∷ [], stream_send_empty_buffer [] Saludo.hs_aux)))
    ⊎ ((Saludo.hs_cpu ≢ Saludo.hs_cpu)
        × (handshake Saludo.hs_cpu saludo [] ≡ ok (negsuc 0, 9 ∷ [], [])))
handshake_example = handshake_lem Saludo.hs_cpu Saludo.hs_cpu (9 ∷ []) [] (omega arith)

abbrev wait : Instruccion
wait = record { nombre = Tipo.wait; parametro1 = some disco; parametro2 = none; parametro3 = none }

abbrev salir : Instruccion
salir = record { nombre = Tipo.exit; parametro1 = none; parametro2 = none; parametro3 = none }

wait-IsComplete : IsComplete wait
unfolding cuantos_parametros
wait-IsComplete = record { nombre = omega arith; present = (disco-IsText, tt) }

salir-IsComplete : IsComplete salir
unfolding cuantos_parametros
salir-IsComplete = record { nombre = omega arith; present = tt }

abbrev nada : Parametros
nada = ([], [], [])

obtener_example : obtener_lista_instrucciones 9 nada (6 ∷ 0 ∷ 0 ∷ 0 ∷ 1 ∷ []) ≢ none
obtener_example = obtener_termina_siempre 9 nada (6 ∷ 0 ∷ 0 ∷ 0 ∷ 1 ∷ []) (omega arith)

abbrev fila : TablaSegmento
fila = record { id = pos 2; pid = pos 1; id_seg_pcb = pos 3; limite = pos 64; base = pos 128 }

fila-IsRow : IsRow fila
fila-IsRow = record {
  id = omega arith;
  pid = omega arith;
  id_seg_pcb = omega arith;
  limite = omega arith;
  base = omega arith;
}

abbrev peticion : RtaKernelFs
peticion = record {
  size = pos 16;
  direccion_fisica = pos 40;
  nombre_archivo = disco;
  pid = pos 1;
  puntero = 5;
}

peticion_example : Decodes recv_peticion_fs_kernel (enviar_archivo_fs peticion) peticion
peticion_example = recv_peticion-enviar_archivo peticion (record {
  size = omega arith;
  direccion_fisica = omega arith;
  nombre_archivo = disco-IsText;
  pid = omega arith;
  puntero = omega arith;
})

abbrev contexto : CpuResponse
contexto = record {
  pid = pos 1;
  flag = Flag.i_wait;
  registros = [];
  pc = 1;
  archivo = disco;
  tiempo = pos 0;
  recurso = disco;
  size_segmento = pos 0;
  id_segmento = pos 0;
  lista_instrucciones = wait ∷ salir ∷ [];
  tabla_segmentos = fila ∷ [];
  posicion_puntero = pos 0;
  direccion_fisica = pos 0;
}

contexto-IsContexto : IsContexto contexto
contexto-IsContexto = record {
  pid = omega arith;
  pc = omega arith;
  instrucciones = (wait-IsComplete, (salir-IsComplete, tt));
  cuantas = omega arith;
  segmentos = (fila-IsRow, tt);
  cuantos = omega arith;
  archivo = disco-IsText;
  flag = omega arith;
  tiempo = omega arith;
  recurso = disco-IsText;
  size_segmento = omega arith;
  id_segmento = omega arith;
  posicion_puntero = omega arith;
  direccion_fisica = omega arith;
}

abbrev dir : List ℕ
dir = 1 ∷ 2 ∷ 3 ∷ 4 ∷ 5 ∷ 6 ∷ 7 ∷ 8 ∷ []

abbrev de_24 : ℕ → ℕ
de_24 n = 24

contexto_example :
    (bytes : Buffer) × (llegan : List Instruccion) × (enviar_instruccion_kernel dir contexto
      ≡ ok bytes)
    × Decodes (desempaquetar_cpu_response de_24 [] nada) bytes (recibido dir [] llegan contexto)
    × (map visible llegan ≡ map visible (wait ∷ salir ∷ []))
contexto_example = contexto_llega de_24 dir [] contexto nada (omega arith) contexto-IsContexto refl

abbrev valores : List (List ℕ)
valores = (7 ∷ 8 ∷ []) ∷ [] ∷ (9 ∷ []) ∷ []

valores-cortos : length (agregar_todos crear_paquete valores).buffer < 2 ^ 31
unfolding crear_paquete agregar_a_paquete u32_bytes
valores-cortos = omega arith

paquete_example :
    (resto otro : Stream) × (recibir_operacion
        (enviar_paquete [] (agregar_todos crear_paquete valores) ++ (5 ∷ []))
      ≡ ok (pos paquete, resto))
    × (recibir_paquete 4 resto ≡ some (ok (valores, 5 ∷ [])))
    × (recibir_operacion (enviar_mensaje [] (codes "HOLA") ++ (5 ∷ [])) ≡ ok (pos mensaje, otro))
    × (recibir_buffer otro ≡ ok (codes "HOLA" ++ 0 ∷ [], 5 ∷ []))
paquete_example =
    paquete_llega valores (codes "HOLA") 4 (5 ∷ []) valores-cortos (omega arith) (omega arith)
