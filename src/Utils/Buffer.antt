-- ===== src/Utils/Buffer.antt =====
-- utils/src/utils/buffer.c. A `t_buffer` is the bytes of its `stream`; `size` is their number. A
-- buffer is shorter than 2 GiB, the range of the `int`s of `buffer_unpack`; a longer one is not a
-- buffer of this model. Unpacking hands over the buffer that is left.
pub mod Decodes
pub mod Laws
pub mod Shrinks
use tp_so20231c.Common.{
  ℕ, ◌+◌, ◌-◌, ◌*◌, ◌/◌, ◌%◌, ◌^◌, List, [], ◌∷◌, ◌++◌, Outcome, ok, exit, fault, Text, take, drop,
  length, ltb, ◌==◌, if◌then◌else◌,
}
use tp_so20231c.Common.Int.{ℤ, pos, negsuc}

abbrev pub Buffer : Type 0
Buffer = List ℕ

-- A step that takes something off the front of a buffer.
abbrev pub Unpack : Type 0 → Type 0
Unpack A = Buffer → Outcome (A × Buffer)

abbrev pub pure : {A : Type 0} → A → Unpack A
pure a b = ok (a, b)

abbrev pub lift : {A : Type 0} → Outcome A → Unpack A
lift o b = elim o [ ok a ↦ ok (a, b) | exit ↦ exit | fault ↦ fault ]

infixl 5 ◌>>=◌ ◌>>◌
abbrev pub ◌>>=◌ : {A B : Type 0} → Unpack A → (A → Unpack B) → Unpack B
◌>>=◌ m f b = elim (m b) [ ok (a, b') ↦ f a b' | exit ↦ exit | fault ↦ fault ]

abbrev pub ◌>>◌ : {B : Type 0} → Unpack (Unit {0}) → Unpack B → Unpack B
m >> k = m >>= λ _. k

unfoldable pub buffer_create : Buffer
buffer_create = []

unfoldable pub buffer_create_copy : Buffer → Buffer
buffer_create_copy self = take (length self) self

unfoldable pub buffer_pack : Buffer → List ℕ → Buffer
buffer_pack self stream = self ++ stream

-- An empty buffer ends the program; a `memcpy` of more than the block holds is a fault.
unfoldable pub buffer_unpack : ℕ → Unpack (List ℕ)
buffer_unpack size self =
    if length self == 0
    then exit
    else if ltb (length self) size
    then fault
    else ok (take size self, drop size self)

-- The four bytes of a `uint32_t`, the lowest first.
unfoldable pub u32_bytes : ℕ → List ℕ
u32_bytes n = n % 256 ∷ n / 256 % 256 ∷ n / 65536 % 256 ∷ n / 16777216 % 256 ∷ []

unfoldable pub of_bytes : List ℕ → ℕ
of_bytes [] = 0
of_bytes (b ∷ bs) = b + 256 * of_bytes bs

-- The bit pattern of an `int`, and the `int` of a pattern.
unfoldable pub pattern32 : ℤ → ℕ
pattern32 (pos n) = n % 2 ^ 32
pattern32 (negsuc n) = 2 ^ 32 - 1 - n % 2 ^ 32

unfoldable pub signed32 : ℕ → ℤ
signed32 w = if ltb w (2 ^ 31) then pos w else negsuc (2 ^ 32 - w - 1)

-- buffer_pack(self, &x, sizeof(x)) at an `uint32_t` or an enumeration, and at an `int`
unfoldable pub pack_u32 : Buffer → ℕ → Buffer
unfolding buffer_pack
pack_u32 self n = buffer_pack self (u32_bytes n)

unfoldable pub pack_int : Buffer → ℤ → Buffer
unfolding pack_u32
pack_int self z = pack_u32 self (pattern32 z)

unfoldable pub unpack_u32 : Unpack ℕ
unpack_u32 = do bytes ← buffer_unpack 4; pure (of_bytes bytes)

unfoldable pub unpack_int : Unpack ℤ
unpack_int = do w ← unpack_u32; pure (signed32 w)

-- `strlen` and the NUL, in 32 bits, then the text with its NUL.
unfoldable pub buffer_pack_string : Buffer → Text → Buffer
unfolding pack_u32
buffer_pack_string self s = pack_u32 self ((length s + 1) % 2 ^ 32) ++ (s ++ 0 ∷ [])

-- What a `char*` into a block reads as: the bytes in front of the first NUL; a block with no NUL
-- is read past its end.
unfoldable pub c_string : List ℕ → Outcome Text
c_string [] = fault
c_string (b ∷ bs) =
    let rest = c_string bs in
    if b == 0 then ok [] else elim rest [ ok s ↦ ok (b ∷ s) | exit ↦ exit | fault ↦ fault ]

unfoldable pub buffer_unpack_string : Unpack Text
buffer_unpack_string = do len ← unpack_u32; str ← buffer_unpack len; lift (c_string str)
