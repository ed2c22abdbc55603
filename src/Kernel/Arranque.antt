-- ===== src/Kernel/Arranque.antt =====
-- kernel.c, `main`: the greetings to the CPU, the memory and the filesystem, and what the memory then
-- sends; with the other sides of those greetings in cpu/src/cpu.c and filesystem/src/filesystem.c.
pub mod Juntos
use tp_so20231c.Common.{ℕ, Bool, true, false, Outcome, ok, exit, fault, ◌==◌, if◌then◌else◌}
use tp_so20231c.Common.Int.{ℤ, pos, negsuc}
use tp_so20231c.Utils.Saludo
use tp_so20231c.Utils.Types.{TablaSegmento}
use tp_so20231c.Utils.Buffer.{Buffer, Unpack, ◌>>=◌, ◌>>◌, pure, lift, unpack_int}
use tp_so20231c.Utils.Segments.{desempaquetar_segmento}
use tp_so20231c.Utils.Frames.{
  Stream, stream_send_empty_buffer, stream_recv_header, stream_recv_buffer,
  stream_recv_empty_buffer, recibir_saludo, en_buffer,
}

-- The caller's side behind the sending: whether the answer is `hs_aux`.
unfoldable pub respuesta : Unpack Bool
unfolding recibir_saludo
respuesta = do rta ← recibir_saludo; pure (rta == Saludo.hs_aux)

-- In the kernel another answer ends the program.
unfoldable pub conectar : Unpack (Unit {0})
unfolding respuesta
conectar = do bien ← respuesta; lift (if bien then ok tt else exit)

-- The CPU and the filesystem as servers: a wrong greeting ends them with its size unread.
unfoldable pub atender_saludo : ℕ → Stream → Stream → Outcome (ℤ × Stream × Stream)
unfolding stream_recv_header stream_recv_empty_buffer stream_send_empty_buffer
atender_saludo hs from to = elim (stream_recv_header from) [
  | ok (recibido, from') ↦
      if recibido == hs
      then elim (stream_recv_empty_buffer from') [
        | ok (_, from'') ↦ ok (pos 0, from'', stream_send_empty_buffer to Saludo.hs_aux)
        | exit ↦ exit
        | fault ↦ fault
      ]
      else ok (negsuc 0, from', to)
  | exit ↦ exit
  | fault ↦ fault
]

-- Segment zero and the greatest number of segments, off the stream of the memory. A header that is
-- not the expected one is only logged, and the table of segments is dropped.
unfoldable pub recibir_inicio : (ℕ → ℕ) → Unpack (TablaSegmento × ℤ)
unfolding stream_recv_header stream_recv_buffer stream_recv_empty_buffer desempaquetar_segmento
    unpack_int
recibir_inicio usable = do
  _ ← stream_recv_header
  stream_recv_empty_buffer
  _ ← stream_recv_header
  buffer_segmento_zero ← stream_recv_buffer
  segmento_zero ← en_buffer (desempaquetar_segmento usable) buffer_segmento_zero
  _ ← stream_recv_header
  buffer_max_seg ← stream_recv_buffer
  max_size_segmento ← en_buffer unpack_int buffer_max_seg
  _ ← stream_recv_header
  _ ← stream_recv_buffer
  pure (segmento_zero, max_size_segmento)

-- The two on the kernel's side of its connection to the memory.
unfoldable pub conectar_memoria : (ℕ → ℕ) → Unpack (TablaSegmento × ℤ)
unfolding conectar recibir_inicio
conectar_memoria usable = conectar >> recibir_inicio usable
