-- ===== src/Memoria/Arranque.antt =====
-- memoria.c: the main memory when it starts, and what it sends to the kernel then: its greeting,
-- segment zero, the number of segments of a process, the table.
pub mod Limpia
use tp_so20231c.Common.{ℕ, List, [], ◌∷◌, ◌++◌, Outcome, ok, exit, fault, bind, length}
use tp_so20231c.Common.Int.{ℤ, pos}
use tp_so20231c.Utils.Saludo
use tp_so20231c.Utils.Buffer.{buffer_create, pack_int}
use tp_so20231c.Utils.Segments.{empaquetar_segmento, empaquetar_lista_segmentos}
use tp_so20231c.Utils.Frames.{Stream, stream_send_buffer, stream_send_empty_buffer, handshake}
use tp_so20231c.Memoria.Bitarray.{Bitarray}
use tp_so20231c.Memoria.Segmentos.{Memoria, crear_nuevo_segmento, PorValor}

-- The frames of `crear_nuevo_segmento`, each a header with an empty buffer.
unfoldable pub enviar_headers : Stream → List ℕ → Stream
unfolding stream_send_empty_buffer
enviar_headers to [] = to
enviar_headers to (h ∷ hs) = enviar_headers (stream_send_empty_buffer to h) hs

unfoldable pub cant_max_por_pcb : Stream → ℤ → Stream
unfolding stream_send_buffer pack_int buffer_create
cant_max_por_pcb to cant_segmentos =
    stream_send_buffer to Saludo.hs_aux (pack_int buffer_create cant_segmentos)

module _ (B : Bitarray) where
  -- The bitmap and the table; the block of the main memory itself is an argument of the requests.
  -- `limpio` is the bit array over the block that `asignarMemoriaBytes` has set to 0.
  unfoldable pub inicializacion_memoria : B.Rep → Memoria B
  inicializacion_memoria limpio = record { mapa = limpio; tabla = [] }

  module _ (tam rta : ℕ) (por_valor : PorValor) where
    unfoldable pub segmento_zero : Memoria B → ℤ → Stream → Outcome (Memoria B × Stream)
    unfolding crear_nuevo_segmento enviar_headers stream_send_buffer empaquetar_segmento
        buffer_create
    segmento_zero m tam_segmento_0 to =
        bind (crear_nuevo_segmento B tam rta por_valor m (pos 0) tam_segmento_0 (pos 0)) (λ r. ok (
          r.0,
          stream_send_buffer (enviar_headers to (r.2)) Saludo.hs_kernel
              (empaquetar_segmento buffer_create (r.1)),
        ))

    -- `main` from the kernel's greeting up to the thread that serves it; the result of the handshake
    -- is not read.
    unfoldable pub atender_arranque :
        Memoria B → ℤ → ℤ → Stream → Stream → Outcome (Memoria B × Stream × Stream)
    unfolding handshake segmento_zero cant_max_por_pcb empaquetar_lista_segmentos pack_int
        buffer_create stream_send_buffer
    atender_arranque m tam_segmento_0 cant_segmentos from to =
        bind (handshake Saludo.hs_kernel from to) (λ h.
          bind (segmento_zero m tam_segmento_0 (h.2)) (λ z.
            bind
              (empaquetar_lista_segmentos (pack_int buffer_create (pos (length (z.0.tabla))))
                (length (z.0.tabla)) (z.0.tabla))
              (λ tabla. ok (
                z.0,
                h.1,
                stream_send_buffer (cant_max_por_pcb (z.1) cant_segmentos) Saludo.hs_aux tabla,
              ))))
