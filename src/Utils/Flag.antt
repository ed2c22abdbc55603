-- ===== src/Utils/Flag.antt =====
-- `instruccion` of utils/src/utils/flags.h: what one program asks of another.
use tp_so20231c.Common.{ℕ}

abbrev pub i_exit : ℕ
i_exit = 0

abbrev pub i_yield : ℕ
i_yield = 1

abbrev pub i_io : ℕ
i_io = 2

abbrev pub i_wait : ℕ
i_wait = 3

abbrev pub i_signal : ℕ
i_signal = 4

abbrev pub i_read : ℕ
i_read = 5

abbrev pub i_write : ℕ
i_write = 6

abbrev pub i_delete_segment : ℕ
i_delete_segment = 7

abbrev pub i_create_segment : ℕ
i_create_segment = 8

abbrev pub i_open : ℕ
i_open = 9

abbrev pub i_close : ℕ
i_close = 10

abbrev pub i_seek : ℕ
i_seek = 11

abbrev pub i_truncate : ℕ
i_truncate = 12

abbrev pub i_create_archivo : ℕ
i_create_archivo = 13

abbrev pub seg_fault : ℕ
seg_fault = 14

abbrev pub crear_proceso : ℕ
crear_proceso = 15
