-- ===== src/Cpu/Enteros.antt =====
-- The `int` arithmetic that cpu.c takes from the C library: `atoi`, `/` and `%`. Operands are taken
-- to be in the range of an `int`.
use Prim.Native.Nat.{min}
use tp_so20231c.Common.{
  ℕ, ◌+◌, ◌-◌, ◌*◌, ◌/◌, ◌%◌, ◌^◌, [], ◌∷◌, Bool, true, false, ◌&&◌, ◌||◌, Outcome, ok, fault, Text,
  ◌==◌, leb, if◌then◌else◌,
}
use tp_so20231c.Common.Int.{ℤ, pos, negsuc, sub_ℕ, pos_part, neg_part, ◌+ℤ◌}
use tp_so20231c.Utils.Buffer.{signed32, pattern32}

unfoldable pub es_digito : ℕ → Bool
es_digito c = leb b'0' c && leb c b'9'

-- The value of the digits in front, behind those of `acc`.
unfoldable pub digitos : ℕ → Text → ℕ
unfolding es_digito
digitos acc [] = acc
digitos acc (c ∷ s) =
    let resto = digitos (acc * 10 + (c - b'0')) s in if es_digito c then resto else acc

unfoldable pub con_signo : Text → ℤ
unfolding digitos
con_signo [] = pos 0
con_signo (c ∷ s) =
    if c == b'-'
    then sub_ℕ 0 (digitos 0 s)
    else if c == b'+'
    then pos (digitos 0 s)
    else pos (digitos 0 (c ∷ s))

-- Blanks, a sign, digits; anything else ends the number.
-- `strtol` ends at the bounds of a `long`.
unfoldable pub a_long : ℤ → ℤ
a_long (pos n) = pos (min n (2 ^ 63 - 1))
a_long (negsuc n) = negsuc (min n (2 ^ 63 - 1))

-- The low 32 bits, as an `int`.
unfoldable pub a_int : ℤ → ℤ
unfolding pattern32 signed32
a_int z = signed32 (pattern32 z)

-- `+` on `int`.
unfoldable pub suma_int : ℤ → ℤ → ℤ
unfolding a_int ◌+ℤ◌
suma_int a b = a_int (a +ℤ b)

unfoldable pub atoi : Text → ℤ
unfolding con_signo a_long a_int
atoi [] = pos 0
atoi (c ∷ s) =
    let resto = atoi s in
    if (c == 32) || (leb 9 c && leb c 13) then resto else a_int (a_long (con_signo (c ∷ s)))

abbrev pub magnitud : ℤ → ℕ
magnitud a = pos_part a + neg_part a

abbrev pub es_negativo : ℤ → Bool
es_negativo (pos n) = false
es_negativo (negsuc n) = true

abbrev pub es_cero : ℤ → Bool
es_cero a = magnitud a == 0

-- a / b, towards 0.
unfoldable pub div_int : ℤ → ℤ → Outcome ℤ
div_int a b =
    let q = magnitud a / magnitud b in
    if es_cero b
    then fault
    else ok (
        if es_negativo a
        then (if es_negativo b then pos q else sub_ℕ 0 q)
        else (if es_negativo b then sub_ℕ 0 q else pos q))

-- a % b, with the sign of a.
unfoldable pub mod_int : ℤ → ℤ → Outcome ℤ
mod_int a b =
    let r = magnitud a % magnitud b in
    if es_cero b then fault else ok (if es_negativo a then sub_ℕ 0 r else pos r)
