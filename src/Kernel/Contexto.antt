-- ===== src/Kernel/Contexto.antt =====
-- planificador.c: a new process out of a console's program, and the context of a process that is
-- sent to the CPU.
pub mod Programa
use tp_so20231c.Common.{
  ℕ, List, [], ◌∷◌, Option, none, some, Outcome, ok, exit, fault, bind, length,
}
use tp_so20231c.Common.Int.{ℤ, pos}
use tp_so20231c.Utils.Types.{Instruccion, TablaSegmento, CpuResponse}
use tp_so20231c.Utils.Buffer.{Buffer, pack_int}
use tp_so20231c.Utils.Segments.{empaquetar_lista_segmentos}
use tp_so20231c.Utils.Instructions.{Parametros, empaquetar_lista_instrucciones}
use tp_so20231c.Utils.Instructions.Obtener.{obtener_lista_instrucciones}
use tp_so20231c.Utils.Contexto.{empaquetar_cabeza, empaquetar_cola}

pub data Estado : Type 0 where
  new : Estado
  ready : Estado
  execute : Estado
  exit_ : Estado
  blocked : Estado
  esperando_io : Estado

-- `registro_cpu` is the eight bytes of the pointer. `program_counter` is an `int` that takes what an
-- `uint32_t` holds and is sent as one.
pub record ProcesoNuevo : Type 0 where
  pub pid : ℤ
  pub lista_instrucciones : List Instruccion
  pub program_counter : ℕ
  pub registro_cpu : List ℕ
  pub tabla_de_segmentos : List TablaSegmento
  pub rafaga_estimada : ℤ
  pub rafaga_real : ℤ
  pub estado_actual : Estado

-- The pointer to the registers is not set: it is what `malloc` returned.
abbrev pub crear : List ℕ → ℤ → TablaSegmento → ℤ → List Instruccion × Buffer → ProcesoNuevo
crear registro_cpu pid segmento_zero estimacion_inicial r = record {
  pid = pid;
  lista_instrucciones = r.0;
  program_counter = 0;
  registro_cpu = registro_cpu;
  tabla_de_segmentos = segmento_zero ∷ [];
  rafaga_estimada = estimacion_inicial;
  rafaga_real = estimacion_inicial;
  estado_actual = new;
}

-- On the fuel of the program's loop.
unfoldable pub nuevo_proceso :
    ℕ → Parametros → List ℕ → ℤ → TablaSegmento → ℤ → Buffer → Option (Outcome ProcesoNuevo)
unfolding obtener_lista_instrucciones
nuevo_proceso fuel ps registro_cpu pid segmento_zero estimacion_inicial instrucciones =
    elim (obtener_lista_instrucciones fuel ps instrucciones) [
      | none ↦ none
      | some o ↦ some (bind o (λ r. ok (crear registro_cpu pid segmento_zero estimacion_inicial r)))
    ]

-- The fields that the kernel sets. Of the block of `cpu_enviar` the others keep what `malloc`
-- returned; as the resource the address of the field is packed, so that `recurso` here is the text
-- that the field's own bytes are read as.
unfoldable pub contexto : CpuResponse → ProcesoNuevo → CpuResponse
contexto nuevo pcb = record nuevo {
  pid = pcb.pid;
  pc = pcb.program_counter;
  lista_instrucciones = pcb.lista_instrucciones;
  tabla_segmentos = pcb.tabla_de_segmentos;
  archivo = [];
}

-- What stands in the buffer. The limit of the first segment is logged: without one it is a NULL that
-- is followed.
unfoldable pub enviar_instruccion_cpu : CpuResponse → ProcesoNuevo → Outcome Buffer
unfolding contexto empaquetar_cabeza empaquetar_lista_instrucciones empaquetar_lista_segmentos
    empaquetar_cola pack_int
enviar_instruccion_cpu nuevo pcb =
    let cpu_enviar = contexto nuevo pcb in
    bind
      (empaquetar_lista_instrucciones (empaquetar_cabeza pcb.registro_cpu cpu_enviar)
        (length pcb.lista_instrucciones) pcb.lista_instrucciones)
      (λ b. elim pcb.tabla_de_segmentos [
        | [] ↦ fault
        | elem ∷ resto ↦
            bind
              (empaquetar_lista_segmentos (pack_int b (pos (length (elem ∷ resto))))
                (length (elem ∷ resto)) (elem ∷ resto))
              (λ b'. ok (empaquetar_cola b' cpu_enviar))
      ])
