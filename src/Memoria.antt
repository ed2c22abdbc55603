-- ===== src/Memoria.antt =====
-- memoria/src: the bitmap of the main memory, the search for a free segment and the table of segments
-- (segmentacion.c), the start (memoria.c), and the threads that serve the other programs
-- (memoria_solicitudes.c).
pub mod Bitarray
pub mod Espacios
pub mod Segmentos
pub mod Solicitudes
pub mod Arranque
pub mod Pedidos
