-- ===== src/Kernel/Conexion.antt =====
-- planificador.c, `nuevo_pcb_new`: a console that connects, from its greeting to the process in NEW.
pub mod Consola
pub mod Rechazo
use tp_so20231c.Common.{
  ℕ, List, Option, none, some, Outcome, ok, exit, fault, bind, ◌==◌, if◌then◌else◌,
}
use tp_so20231c.Common.Int.{ℤ, pos}
use tp_so20231c.Utils.Saludo
use tp_so20231c.Utils.Header
use tp_so20231c.Utils.Types.{TablaSegmento}
use tp_so20231c.Utils.Segments.{int_eq}
use tp_so20231c.Utils.Instructions.{Parametros}
use tp_so20231c.Utils.Frames.{Stream, stream_recv_header, stream_recv_buffer, handshake}
use tp_so20231c.Memoria.Pedidos.{avisar_proceso}
use tp_so20231c.Kernel.Contexto.{ProcesoNuevo, nuevo_proceso}
use tp_so20231c.Kernel.Sistema.{Sistema}
use tp_so20231c.Kernel.Planificador.{nuevo_pcb_new}

-- Where the thread of a connection ends: with a process or without one, and what the console and
-- the memory were sent.
pub record Conexion : Type 0 where
  pub pcb_nuevo : Option ProcesoNuevo
  pub sistema : Sistema
  pub a_consola : Stream
  pub a_memoria : Stream

unfoldable pub rechazar : Sistema → Stream → Stream → Conexion
rechazar s a_consola a_memoria = record {
  pcb_nuevo = none;
  sistema = s;
  a_consola = a_consola;
  a_memoria = a_memoria;
}

unfoldable pub entrar : ProcesoNuevo → Sistema → Stream → Stream → Conexion
unfolding avisar_proceso nuevo_pcb_new
entrar pcb s a_consola a_memoria = record {
  pcb_nuevo = some pcb;
  sistema = nuevo_pcb_new s;
  a_consola = a_consola;
  a_memoria = avisar_proceso a_memoria pcb.pid;
}

module _ (fuel : ℕ) (ps : Parametros) (registro_cpu : List ℕ) (segmento_zero : TablaSegmento)
    (estimacion_inicial : ℤ) where
  -- The process of a buffer of instructions, with the next pid.
  unfoldable pub crear_pcb : Sistema → List ℕ → Stream → Stream → Option (Outcome Conexion)
  unfolding nuevo_proceso entrar
  crear_pcb s instrucciones a_consola a_memoria =
      elim (nuevo_proceso fuel ps registro_cpu (pos s.next_pid) segmento_zero estimacion_inicial
        instrucciones) [
          | none ↦ none
          | some o ↦ some (bind o (λ pcb. ok (entrar pcb s a_consola a_memoria)))
        ]

  -- Behind the greeting. The header of a program is asked for before its buffer is read.
  unfoldable pub recibir_programa : Sistema → Stream → Stream → Stream → Option (Outcome Conexion)
  unfolding stream_recv_header stream_recv_buffer crear_pcb rechazar
  recibir_programa s from a_consola a_memoria = elim (stream_recv_header from) [
    | ok (consola_rta, from') ↦
        if consola_rta == Header.lista_instrucciones
        then elim (stream_recv_buffer from') [
          | ok (buffer, _) ↦ crear_pcb s buffer a_consola a_memoria
          | exit ↦ some exit
          | fault ↦ some fault
        ]
        else some (ok (rechazar s a_consola a_memoria))
    | exit ↦ some exit
    | fault ↦ some fault
  ]

  unfoldable pub atender_consola : Sistema → Stream → Stream → Stream → Option (Outcome Conexion)
  unfolding handshake recibir_programa rechazar
  atender_consola s from a_consola a_memoria = elim (handshake Saludo.hs_consola from a_consola) [
    | ok (resultado, from', a_consola') ↦
        if int_eq resultado (pos 1)
        then recibir_programa s from' a_consola' a_memoria
        else some (ok (rechazar s a_consola' a_memoria))
    | exit ↦ some exit
    | fault ↦ some fault
  ]
