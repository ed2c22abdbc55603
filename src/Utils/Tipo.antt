-- ===== src/Utils/Tipo.antt =====
-- `tipo_instruccion_consola` of utils/src/utils/flags.h: the instructions of a program.
use tp_so20231c.Common.{ℕ}

abbrev pub f_read : ℕ
f_read = 0

abbrev pub f_write : ℕ
f_write = 1

abbrev pub set : ℕ
set = 2

abbrev pub mov_in : ℕ
mov_in = 3

abbrev pub mov_out : ℕ
mov_out = 4

abbrev pub f_truncate : ℕ
f_truncate = 5

abbrev pub f_seek : ℕ
f_seek = 6

abbrev pub create_segment : ℕ
create_segment = 7

abbrev pub io : ℕ
io = 8

abbrev pub wait : ℕ
wait = 9

abbrev pub signal : ℕ
signal = 10

abbrev pub f_open : ℕ
f_open = 11

abbrev pub f_close : ℕ
f_close = 12

abbrev pub delete_segment : ℕ
delete_segment = 13

abbrev pub exit : ℕ
exit = 14

abbrev pub yield : ℕ
yield = 15
