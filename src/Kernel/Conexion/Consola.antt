-- ===== src/Kernel/Conexion/Consola.antt =====
-- A console and the kernel, from the greeting to the process in NEW.
use tp_so20231c.Common.{
  ℕ, ◌<◌, ◌^◌, ◌≡◌, refl, List, [], ◌∷◌, ◌++◌, ◌==◌, arith, some, ok, length, if◌then◌else◌,
}
use tp_so20231c.Common.Int.{ℤ, pos}
use tp_so20231c.Utils.Saludo
use tp_so20231c.Utils.Header
use tp_so20231c.Utils.Flag
use tp_so20231c.Utils.Types.{Instruccion, TablaSegmento}
use tp_so20231c.Utils.Buffer.{Buffer}
use tp_so20231c.Utils.Buffer.Laws.{int_bytes}
use tp_so20231c.Utils.Segments.{int_eq}
use tp_so20231c.Utils.Instructions.{Parametros}
use tp_so20231c.Utils.Frames.{Stream, stream_recv_header}
use tp_so20231c.Utils.Frames.Laws.{stream_recv_buffer-Decodes}
use tp_so20231c.Utils.Frames.Marcos.{marco, saludo_aceptado}
use tp_so20231c.Memoria.Bitarray.{Bitarray}
use tp_so20231c.Memoria.Segmentos.{Memoria}
use tp_so20231c.Kernel.Sistema.{Sistema}
use tp_so20231c.Kernel.Contexto.{ProcesoNuevo}
use tp_so20231c.Kernel.Conexion.{Conexion, rechazar, crear_pcb, recibir_programa, atender_consola}

-- What a console sends: its greeting, and a program's buffer.
abbrev lo_enviado : Buffer → Stream
lo_enviado b = marco Saludo.hs_consola [] ++ marco Header.lista_instrucciones b

module _ (fuel : ℕ) (ps : Parametros) (registro_cpu : List ℕ) (fila : TablaSegmento)
    (estimacion : ℤ) where
  pub marco_recibido :
      (s : Sistema) (h : ℕ) (b : Buffer) (rest a_consola a_memoria : Stream)
      → length b < 2 ^ 32
      → recibir_programa fuel ps registro_cpu fila estimacion s
          (marco h b ++ rest)
          a_consola
          a_memoria
        ≡ (if h == Header.lista_instrucciones
            then crear_pcb fuel ps registro_cpu fila estimacion s b a_consola a_memoria
            else some (ok (rechazar s a_consola a_memoria)))
  unfolding recibir_programa marco stream_recv_header
  marco_recibido s h b rest a_consola a_memoria l =
      rw ((stream_recv_buffer-Decodes b l).reads rest) refl

  -- The greeting is answered, then the program read.
  pub saludo_recibido :
      (s : Sistema) (rest a_consola a_memoria : Stream)
      → atender_consola fuel ps registro_cpu fila estimacion s
          (marco Saludo.hs_consola [] ++ rest)
          a_consola
          a_memoria
        ≡ recibir_programa fuel ps registro_cpu fila estimacion s rest
            (a_consola ++ marco Saludo.hs_aux [])
            a_memoria
  unfolding atender_consola int_eq
  saludo_recibido s rest a_consola a_memoria =
      rw (saludo_aceptado Saludo.hs_consola rest a_consola (omega arith), atender_consola) refl

-- What the memory is told of a process.
abbrev aviso : ℤ → Stream
aviso pid = marco Flag.crear_proceso [] ++ marco Flag.crear_proceso (int_bytes pid)

-- The process that a kernel with segment zero makes of a list.
abbrev pub PcbDe : TablaSegmento → Sistema → List Instruccion → Conexion → Type 0
PcbDe fila s lista k =
    (pcb : ProcesoNuevo) × (k.pcb_nuevo ≡ some pcb)
    × (pcb.lista_instrucciones ≡ lista)
    × (pcb.pid ≡ pos s.next_pid)
    × (pcb.program_counter ≡ 0)
    × (pcb.tabla_de_segmentos ≡ fila ∷ [])
