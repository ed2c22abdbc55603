-- ===== src/Kernel.antt =====
-- kernel/src: the start (kernel.c), the queues of the states (estado.c), and of planificador.c the
-- resources of WAIT and SIGNAL, the context of a process, the files with the filesystem and in the
-- tables, and the planners with the answers of the CPU.
pub mod Sistema
pub mod Recursos
pub mod Arranque
pub mod Contexto
pub mod Conexion
pub mod Archivos
pub mod Abiertos
pub mod Planificador
pub mod Respuesta
pub mod Hrrn
