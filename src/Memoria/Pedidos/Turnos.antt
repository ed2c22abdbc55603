-- ===== src/Memoria/Pedidos/Turnos.antt =====
-- What a turn at a request of the kernel comes to.
use tp_so20231c.Common.{ℕ, refl, List, [], ◌++◌, Outcome, ok, arith}
use tp_so20231c.Common.Int.{ℤ}
use tp_so20231c.Utils.Flag
use tp_so20231c.Utils.Header
use tp_so20231c.Utils.Types.{TablaSegmento}
use tp_so20231c.Utils.Buffer.{unpack_int, buffer_create}
use tp_so20231c.Utils.Buffer.Decodes.{Decodes}
use tp_so20231c.Utils.Buffer.Laws.{IsInt, int_bytes, int_bytes-Decodes, length-int_bytes}
use tp_so20231c.Utils.Segments.{empaquetar_segmento}
use tp_so20231c.Utils.Segments.RoundTrip.{row_bytes}
use tp_so20231c.Utils.Frames.{Stream, stream_send_buffer}
use tp_so20231c.Utils.Frames.Marcos.{marco, marco_ultimo-Decodes}
use tp_so20231c.Memoria.Bitarray.{Bitarray}
use tp_so20231c.Memoria.Segmentos.{Memoria, PorValor}
use tp_so20231c.Memoria.Arranque.{enviar_headers}
use tp_so20231c.Memoria.Pedidos.{recibir_entero}

-- The frames of the three numbers.
pedido_bytes : ℤ → ℤ → ℤ → List ℕ
pedido_bytes pid size id =
    marco Header.resultado (int_bytes pid)
    ++ (marco Header.resultado (int_bytes size) ++ marco Header.resultado (int_bytes id))

pub recibir_entero-Decodes :
    (h : ℕ) (z : ℤ) → IsInt z → Decodes recibir_entero (marco h (int_bytes z)) z
unfolding recibir_entero
recibir_entero-Decodes h z i =
    marco_ultimo-Decodes h (int_bytes z) unpack_int (λ _ x. x) (omega (arith, length-int_bytes z))
      (int_bytes-Decodes z i) refl

-- The answer with a row.
respuesta_bytes : TablaSegmento → List ℕ
respuesta_bytes fila = marco Header.general [] ++ marco Header.general (row_bytes fila)

module _ (B : Bitarray) (tam rta : ℕ) (por_valor : PorValor) where
  -- The turn at a request: what `crear_nuevo_segmento` comes to, with the answer.
  abbrev seguido :
      Stream → Stream → Memoria B × TablaSegmento × List ℕ → Outcome (Memoria B × Stream × Stream)
  seguido rest to r = ok (
    r.0,
    rest,
    stream_send_buffer (enviar_headers to (r.2)) Header.general
        (empaquetar_segmento buffer_create (r.1)),
  )
