-- ===== src/Tests.antt =====
-- The definitions run on small inputs, and every result is applied at one.
mod Utils
mod Consola
mod Cpu
mod Memoria
mod Kernel
mod Solicitudes
mod Filesystem
mod Conjunto
mod Archivos
mod Conexion
mod Respuesta
