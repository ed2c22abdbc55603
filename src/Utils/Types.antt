-- ===== src/Utils/Types.antt =====
-- The structures of utils/src/utils/utils.h. An `int` is a ℤ, a
-- `uint32_t` and an enumeration a ℕ, a `char*` the text it points to (`none` for NULL).
use tp_so20231c.Common.{ℕ, List, Option, Text}
use tp_so20231c.Common.Int.{ℤ}

-- `none` is a NULL pointer.
pub record Instruccion : Type 0 where
  pub nombre : ℕ
  pub parametro1 : Option Text
  pub parametro2 : Option Text
  pub parametro3 : Option Text

pub record TablaSegmento : Type 0 where
  pub id : ℤ
  pub pid : ℤ
  pub id_seg_pcb : ℤ
  pub limite : ℤ
  pub base : ℤ

-- `registros` is the block of `sizeof(registros_cpu)` bytes that the pointer leads to.
pub record CpuResponse : Type 0 where
  pub pid : ℤ
  pub flag : ℕ
  pub registros : List ℕ
  pub pc : ℕ
  pub archivo : Text
  pub tiempo : ℤ
  pub recurso : Text
  pub size_segmento : ℤ
  pub id_segmento : ℤ
  pub lista_instrucciones : List Instruccion
  pub tabla_segmentos : List TablaSegmento
  pub posicion_puntero : ℤ
  pub direccion_fisica : ℤ

pub record RtaKernelFs : Type 0 where
  pub size : ℤ
  pub direccion_fisica : ℤ
  pub nombre_archivo : Text
  pub pid : ℤ
  pub puntero : ℕ
