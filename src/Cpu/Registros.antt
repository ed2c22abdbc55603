-- ===== src/Cpu/Registros.antt =====
-- cpu.c: the registers. `registros_cpu` is one block of 112 bytes, four registers of 4, four of 8
-- and four of 16 bytes one behind the other; a write past a register goes into the next one.
pub mod Escritura
pub mod Leyes
use tp_so20231c.Common.{
  ℕ, zero, suc, ◌+◌, List, [], ◌∷◌, Option, none, some, Outcome, ok, exit, fault, bind, Text, codes,
  str_eq, ◌==◌, ltb, length, set, drop, replicate, if◌then◌else◌,
}
use tp_so20231c.Utils.Buffer.{c_string}

abbrev pub Registros : Type 0
Registros = List ℕ

-- `for(...) registro[i] = bytes[i]` from an offset of the block on.
unfoldable pub escribir_desde : ℕ → List ℕ → Registros → Outcome Registros
escribir_desde off [] regs = ok regs
escribir_desde off (b ∷ bs) regs =
    if ltb off (length regs) then escribir_desde (suc off) bs (set regs off b) else fault

-- The character '0' in each place, then the value, however long it is.
unfoldable pub escribir_valor_en_registro_con_n_caracteres :
    Text → ℕ → ℕ → Registros → Outcome Registros
unfolding escribir_desde
escribir_valor_en_registro_con_n_caracteres valor off longitud regs =
    bind (escribir_desde off (replicate longitud b'0') regs) (λ r. escribir_desde off valor r)

-- The ladder of `escribir_valor_en_registro`: the offset and the length that it passes on.
unfoldable pub donde_escribir : Text → Option (ℕ × ℕ)
unfolding str_eq
donde_escribir r =
    if str_eq r (codes "AX")
    then some (0, 4)
    else if str_eq r (codes "BX")
    then some (4, 4)
    else if str_eq r (codes "CX")
    then some (8, 4)
    else if str_eq r (codes "DX")
    then some (12, 4)
    else if str_eq r (codes "EAX")
    then some (16, 8)
    else if str_eq r (codes "EBX")
    then some (24, 8)
    else if str_eq r (codes "ECX")
    then some (32, 8)
    else if str_eq r (codes "EDX")
    then some (40, 8)
    else if str_eq r (codes "RAX")
    then some (48, 16)
    else if str_eq r (codes "RBX")
    then some (64, 16)
    else if str_eq r (codes "RCX")
    then some (80, 16)
    else if str_eq r (codes "RDX")
    then some (96, 16)
    else none

-- A name of no register changes nothing.
unfoldable pub escribir_valor_en_registro : Text → Text → Registros → Outcome Registros
unfolding escribir_valor_en_registro_con_n_caracteres donde_escribir
escribir_valor_en_registro valor registro regs = elim (donde_escribir registro) [
  | none ↦ ok regs
  | some (off, n) ↦ escribir_valor_en_registro_con_n_caracteres valor off n regs
]

-- The ladder of `encontrar_valor_registro`: where its pointer leads to.
unfoldable pub donde_leer : Text → Option ℕ
unfolding str_eq
donde_leer r =
    if str_eq r (codes "AX")
    then some 0
    else if str_eq r (codes "BX")
    then some 4
    else if str_eq r (codes "CX")
    then some 8
    else if str_eq r (codes "DX")
    then some 12
    else if str_eq r (codes "EAX")
    then some 16
    else if str_eq r (codes "EBX")
    then some 24
    else if str_eq r (codes "ECX")
    then some 32
    else if str_eq r (codes "EDX")
    then some 40
    else if str_eq r (codes "RAX")
    then some 48
    else if str_eq r (codes "RBX")
    then some 64
    else if str_eq r (codes "RCX")
    then some 80
    else if str_eq r (codes "RDX")
    then some 96
    else none

-- The text at the pointer: it ends at the first NUL of the block, not at the register's end.
unfoldable pub encontrar_valor_registro : Text → Registros → Outcome Text
unfolding donde_leer c_string
encontrar_valor_registro registro regs = elim (donde_leer registro) [
  | none ↦ ok []
  | some off ↦ c_string (drop off regs)
]

unfoldable pub encontrar_tamanio_registro : Text → ℕ
encontrar_tamanio_registro [] = 4
encontrar_tamanio_registro (c ∷ _) = if c == b'E' then 8 else if c == b'R' then 16 else 4
