-- ===== src/Kernel/Archivos.antt =====
-- planificador.c: what the kernel asks the filesystem, the process that it says is blocked for it, and
-- the opening of a file with the filesystem's turns between the kernel's.
pub mod Turnos
use tp_so20231c.Common.{ℕ, List, Outcome, ok, exit, fault, bind, ◌==◌, if◌then◌else◌}
use tp_so20231c.Common.Int.{ℤ}
use tp_so20231c.Utils.Flag
use tp_so20231c.Utils.Header
use tp_so20231c.Utils.Saludo
use tp_so20231c.Utils.Types.{RtaKernelFs}
use tp_so20231c.Utils.Buffer.{Unpack, ◌>>=◌, pure, buffer_create, unpack_int, pack_int}
use tp_so20231c.Utils.Frames.{
  Stream, stream_recv_header, stream_recv_buffer, stream_send_buffer, recibir_saludo, en_buffer,
}
use tp_so20231c.Utils.Contexto.{enviar_archivo_fs}
use tp_so20231c.Common.{Text, Bool}
use tp_so20231c.Memoria.Bitarray.{Bitarray}
use tp_so20231c.Filesystem.Servidor.{Servidor, atender_kernel}

-- `enviar_archivo_fs` with its sending.
unfoldable pub enviar_peticion : Stream → ℕ → RtaKernelFs → Stream
unfolding enviar_archivo_fs stream_send_buffer
enviar_peticion to instruc dato = stream_send_buffer to instruc (enviar_archivo_fs dato)

unfoldable pub stream_pcb_fs : Stream → ℤ → Stream
unfolding stream_send_buffer pack_int buffer_create
stream_pcb_fs to pid = stream_send_buffer to Saludo.hs_aux (pack_int buffer_create pid)

-- The pid at the head of `unblocked_pcb_after_fs`.
unfoldable pub recibir_desbloqueado : Unpack ℤ
unfolding stream_recv_header stream_recv_buffer unpack_int
recibir_desbloqueado = do
  _ ← stream_recv_header
  buffer ← stream_recv_buffer
  pid ← en_buffer unpack_int buffer
  pure pid

module _ (B : Bitarray) (base : ℕ) (block_size : ℤ) (abre : Text → Bool) (nuevo : List ℕ) where
  -- A request, a turn of the filesystem, and the header of its answer.
  unfoldable pub consultar : ℕ → RtaKernelFs → Servidor B → Outcome (ℕ × Servidor B)
  unfolding atender_kernel recibir_saludo
  consultar instruc dato s =
      bind
        (atender_kernel B base block_size abre nuevo
          (record s { de_kernel = enviar_peticion s.de_kernel instruc dato }))
        (λ s1. bind (recibir_saludo s1.a_kernel) (λ h. ok (h.0, record s1 { a_kernel = h.1 })))

  -- Another answer than `hs_aux` is only logged.
  unfoldable pub creacion_archivo_file_system : RtaKernelFs → Servidor B → Outcome (Servidor B)
  unfolding consultar
  creacion_archivo_file_system archivo s =
      bind (consultar Flag.i_create_archivo archivo s) (λ r. ok (r.1))

  -- I_OPEN of a file that no process has open, up to the kernel's own tables.
  unfoldable pub abrir : RtaKernelFs → Servidor B → Outcome (Servidor B)
  unfolding consultar creacion_archivo_file_system
  abrir envio_fs s = bind (consultar Flag.i_open envio_fs s) (λ r.
      if r.0 == Header.nuevo_archivo_filesystem
      then creacion_archivo_file_system envio_fs (r.1)
      else ok (r.1))
