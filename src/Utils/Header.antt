-- ===== src/Utils/Header.antt =====
-- `headers` of utils/src/utils/flags.h: the first byte of a frame.
use tp_so20231c.Common.{ℕ}

abbrev pub lista_instrucciones : ℕ
lista_instrucciones = 0

abbrev pub pcb_execute : ℕ
pcb_execute = 1

abbrev pub pcb_pid : ℕ
pcb_pid = 2

abbrev pub resultado : ℕ
resultado = 3

abbrev pub respuesta_cpu : ℕ
respuesta_cpu = 4

abbrev pub general : ℕ
general = 5

abbrev pub compactacion : ℕ
compactacion = 6

abbrev pub out_of_memory : ℕ
out_of_memory = 7

abbrev pub nuevo_archivo_filesystem : ℕ
nuevo_archivo_filesystem = 8

abbrev pub error : ℕ
error = 9

abbrev pub archivo : ℕ
archivo = 10
