-- ===== src/Memoria/Pedidos.antt =====
-- memoria_solicitudes.c, `peticiones_kernel`: one turn of the thread that serves the kernel; and the
-- kernel's requests (kernel/src/planificador.c) for a segment and for the name of a process.
pub mod Turnos
pub mod Errores
use tp_so20231c.Common.{
  ℕ, zero, suc, List, [], ◌∷◌, ◌++◌, Outcome, ok, exit, fault, bind, ◌==◌, if◌then◌else◌,
}
use tp_so20231c.Common.Int.{ℤ, pos}
use tp_so20231c.Utils.Flag
use tp_so20231c.Utils.Header
use tp_so20231c.Utils.Types.{TablaSegmento}
use tp_so20231c.Utils.Buffer.{
  Buffer, Unpack, ◌>>=◌, ◌>>◌, pure, buffer_create, buffer_unpack, pack_int, unpack_int,
}
use tp_so20231c.Utils.Segments.{int_eq, empaquetar_segmento, desempaquetar_segmento}
use tp_so20231c.Utils.Frames.{
  Stream, stream_recv_header, stream_recv_buffer, stream_send_buffer, stream_send_empty_buffer,
  recibir_saludo, en_buffer,
}
use tp_so20231c.Memoria.Bitarray.{Bitarray}
use tp_so20231c.Memoria.Segmentos.{
  Memoria, crear_nuevo_segmento, eleminar_segmento, PorValor, quitar_por_valor,
}
use tp_so20231c.Memoria.Arranque.{enviar_headers}

-- I_CREATE_SEGMENT in the kernel: the process, the size and the number of the segment.
unfoldable pub pedir_segmento : Stream → ℤ → ℤ → ℤ → Stream
unfolding stream_send_empty_buffer stream_send_buffer pack_int buffer_create
pedir_segmento to pid size id =
    let t1 = stream_send_empty_buffer to Flag.i_create_segment in
    let t2 = stream_send_buffer t1 Header.resultado (pack_int buffer_create pid) in
    let t3 = stream_send_buffer t2 Header.resultado (pack_int buffer_create size) in
    stream_send_buffer t3 Header.resultado (pack_int buffer_create id)

-- What `nuevo_pcb_new` says to the memory.
unfoldable pub avisar_proceso : Stream → ℤ → Stream
unfolding stream_send_empty_buffer stream_send_buffer pack_int buffer_create
avisar_proceso to pid =
    stream_send_buffer (stream_send_empty_buffer to Flag.crear_proceso) Flag.crear_proceso
      (pack_int buffer_create pid)

-- A frame whose header is not read, and the `int` in front of its buffer.
unfoldable pub recibir_entero : Unpack ℤ
unfolding stream_recv_header stream_recv_buffer unpack_int
recibir_entero = do
  _ ← stream_recv_header
  buffer ← stream_recv_buffer
  z ← en_buffer unpack_int buffer
  pure z

unfoldable pub recibir_pedido : Unpack (ℤ × ℤ × ℤ)
unfolding recibir_entero
recibir_pedido = do
  pid ← recibir_entero
  size ← recibir_entero
  id_segmento ← recibir_entero
  pure (pid, size, id_segmento)

-- The kernel's reading of the answer: the header that it asks `consultar_memoria_create` about, then
-- the frame with the row, whose header is only logged.
unfoldable pub recibir_respuesta : (ℕ → ℕ) → Unpack (ℕ × TablaSegmento)
unfolding recibir_saludo stream_recv_header stream_recv_buffer desempaquetar_segmento
recibir_respuesta usable = do
  header ← recibir_saludo
  _ ← stream_recv_header
  nuevo_segmento ← stream_recv_buffer
  fila ← en_buffer (desempaquetar_segmento usable) nuevo_segmento
  pure (header, fila)

module _ (B : Bitarray) where
  -- `eleminarSegmento` of the numbers from i on.
  unfoldable pub eleminar_desde : ℕ → ℕ → Memoria B → Outcome (Memoria B)
  unfolding eleminar_segmento
  eleminar_desde zero i m = ok m
  eleminar_desde (suc n) i m =
      bind (eleminar_segmento B m (pos i)) (λ m'. eleminar_desde n (suc i) m')

  -- The row is already out of the table when `list_remove_by_condition` runs, with a condition that
  -- takes a row by value.
  unfoldable pub caso_delete :
      PorValor → Memoria B → Stream → Stream → Outcome (Memoria B × Stream × Stream)
  unfolding stream_recv_buffer unpack_int eleminar_segmento int_eq quitar_por_valor
  caso_delete por_valor m from to = bind (stream_recv_buffer from) (λ r.
      bind (unpack_int (r.0)) (λ d.
        if int_eq (d.0) (pos 0)
        then ok (m, r.1, to)
        else bind (eleminar_segmento B m (d.0)) (λ m'.
          bind (quitar_por_valor por_valor m'.tabla (d.0))
            (λ tabla. ok (record m' { tabla = tabla }, r.1, to)))))

  -- The eight bytes of a pointer of the kernel, which is followed behind the loop; the loop runs
  -- `sizeof` a pointer times.
  unfoldable pub caso_exit : Memoria B → Stream → Outcome (Memoria B × Stream × Stream)
  unfolding stream_recv_buffer buffer_unpack eleminar_desde
  caso_exit m from =
      bind (stream_recv_buffer from)
        (λ r. bind (buffer_unpack 8 (r.0)) (λ _. bind (eleminar_desde 8 0 m) (λ _. fault)))

  unfoldable pub caso_crear_proceso :
      Memoria B → Stream → Stream → Outcome (Memoria B × Stream × Stream)
  unfolding recibir_entero
  caso_crear_proceso m from to = bind (recibir_entero from) (λ r. ok (m, r.1, to))

  module _ (tam rta : ℕ) (por_valor : PorValor) where
    unfoldable pub caso_create : Memoria B → Stream → Stream → Outcome (Memoria B × Stream × Stream)
    unfolding recibir_pedido crear_nuevo_segmento enviar_headers stream_send_buffer buffer_create
        empaquetar_segmento
    caso_create m from to = bind (recibir_pedido from) (λ p.
        bind (crear_nuevo_segmento B tam rta por_valor m (p.0.2) (p.0.1) (p.0.0)) (λ r. ok (
          r.0,
          p.1,
          stream_send_buffer (enviar_headers to (r.2)) Header.general
              (empaquetar_segmento buffer_create (r.1)),
        )))

    -- The memory, the stream that comes in, and the one that goes out.
    unfoldable pub peticion_kernel :
        Memoria B → Stream → Stream → Outcome (Memoria B × Stream × Stream)
    unfolding recibir_saludo caso_create caso_delete caso_exit caso_crear_proceso
    peticion_kernel m from to = bind (recibir_saludo from) (λ h.
        if h.0 == Flag.i_create_segment
        then caso_create m (h.1) to
        else if h.0 == Flag.i_delete_segment
        then caso_delete por_valor m (h.1) to
        else if h.0 == Flag.i_exit
        then caso_exit m (h.1)
        else if h.0 == Flag.crear_proceso
        then caso_crear_proceso m (h.1) to
        else ok (m, h.1, to))
