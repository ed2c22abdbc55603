-- ===== src/Utils.antt =====
-- utils/src/utils: the buffers, the frames on a socket and what is packed into them, shared by
-- the five programs.
pub mod Tipo
pub mod Flag
pub mod Header
pub mod Saludo
pub mod Types
pub mod Buffer
pub mod Segments
pub mod Instructions
pub mod Frames
pub mod Contexto
pub mod Paquete
