-- ===== src/Kernel/Respuesta.antt =====
-- planificador.c, `execute_pcb`: the `switch` on what the CPU answers.
pub mod Banderas
pub mod Destino
use tp_so20231c.Common.{ℕ, List, Text, ◌==◌, if◌then◌else◌}
use tp_so20231c.Common.Int.{ℤ}
use tp_so20231c.Utils.Flag
use tp_so20231c.Utils.Types.{CpuResponse}
use tp_so20231c.Kernel.Sistema.{Sistema, Turno}
use tp_so20231c.Kernel.Planificador.{
  caso_yield, caso_exit, caso_io, caso_wait, caso_signal, caso_seek, caso_truncate, caso_read_write,
}

-- A turn of the planners; a case that first asks another program, with its flag; or no case.
pub data Respuesta : Type 0 where
  turno : Turno → Respuesta
  otro_programa : ℕ → Respuesta
  ninguna : Respuesta

-- The case for the process `pcb`, as a turn of Planificador. What the cases for files do to the tables
-- and ask the filesystem stands in Archivos and Abiertos, those for segments in Memoria/Pedidos.
unfoldable pub atender_respuesta : ℤ → List Text → Sistema → ℕ → CpuResponse → Respuesta
unfolding caso_yield caso_exit caso_io caso_wait caso_signal caso_seek caso_truncate caso_read_write
atender_respuesta basura recursos s pcb r =
    if r.flag == Flag.i_yield
    then turno (caso_yield s pcb)
    else if r.flag == Flag.i_exit
    then turno (caso_exit s pcb)
    else if r.flag == Flag.i_io
    then turno (caso_io s pcb)
    else if r.flag == Flag.i_wait
    then turno (caso_wait recursos r.recurso s pcb)
    else if r.flag == Flag.i_signal
    then turno (caso_signal basura recursos r.recurso s pcb)
    else if r.flag == Flag.i_delete_segment
    then otro_programa Flag.i_delete_segment
    else if r.flag == Flag.i_create_segment
    then otro_programa Flag.i_create_segment
    else if r.flag == Flag.i_open
    then otro_programa Flag.i_open
    else if r.flag == Flag.i_close
    then otro_programa Flag.i_close
    else if r.flag == Flag.i_seek
    then turno (caso_seek s pcb)
    else if r.flag == Flag.i_truncate
    then turno (caso_truncate s pcb)
    else if r.flag == Flag.i_read
    then turno (caso_read_write s pcb)
    else if r.flag == Flag.i_write
    then turno (caso_read_write s pcb)
    else if r.flag == Flag.seg_fault
    then turno (caso_exit s pcb)
    else ninguna
