-- ===== src/Utils/Saludo.antt =====
-- `handsakes` of utils/src/utils/flags.h: who is calling.
use tp_so20231c.Common.{ℕ}

abbrev pub hs_consola : ℕ
hs_consola = 0

abbrev pub hs_aux : ℕ
hs_aux = 1

abbrev pub hs_cpu : ℕ
hs_cpu = 2

abbrev pub hs_memoria : ℕ
hs_memoria = 3

abbrev pub hs_filesystem : ℕ
hs_filesystem = 4

abbrev pub hs_fs_blocked : ℕ
hs_fs_blocked = 5

abbrev pub hs_kernel : ℕ
hs_kernel = 6
