-- ===== src/Cpu.antt =====
-- cpu/src/cpu.c: the registers, the decoding of one instruction with its address translation, and
-- the run of instructions between two contexts that the kernel sends.
pub mod Registros
pub mod Enteros
pub mod Decode
pub mod Rafaga
