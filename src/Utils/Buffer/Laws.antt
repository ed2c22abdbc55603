-- ===== src/Utils/Buffer/Laws.antt =====
-- Reading back numbers and texts.
use tp_so20231c.Common.{
  append_assoc, ℕ, ◌+◌, ◌%◌, ◌^◌, ◌<◌, ◌≡◌, refl, ap, List, [], ◌∷◌, ◌++◌, arith, ok, Text, IsText,
  NoNul, take, drop, length, length-append,
}
use tp_so20231c.Common.Int.{ℤ, pos, negsuc}
use tp_so20231c.Utils.Buffer.Decodes.{
  Decodes, bind-Decodes, bind_pure-Decodes, bind_last-Decodes, lift-Decodes,
}
use tp_so20231c.Utils.Buffer.{
  Buffer, pack_u32, pack_int, buffer_pack, buffer_unpack, u32_bytes, of_bytes, pattern32, signed32,
  unpack_u32, unpack_int, buffer_pack_string, buffer_unpack_string, c_string,
}

pub take-length-append : (xs ys : List ℕ) → take (length xs) (xs ++ ys) ≡ xs
take-length-append [] ys = refl
take-length-append (x ∷ xs) ys = ap (◌∷◌ x) (take-length-append xs ys)

pub drop-length-append : (xs ys : List ℕ) → drop (length xs) (xs ++ ys) ≡ ys
drop-length-append [] ys = refl
drop-length-append (x ∷ xs) ys = drop-length-append xs ys

pub buffer_unpack-Decodes :
    (n : ℕ) (xs : List ℕ) → length xs ≡ n → 0 < n → Decodes (buffer_unpack n) xs xs
unfolding buffer_unpack
buffer_unpack-Decodes n xs e h = record {
  reads = λ rest. rw (← e) (
      ground
        (arith, length-append xs rest, take-length-append xs rest, drop-length-append xs rest));
}

pub of_bytes-u32_bytes : (n : ℕ) → n < 2 ^ 32 → of_bytes (u32_bytes n) ≡ n
unfolding of_bytes u32_bytes
of_bytes-u32_bytes n h = omega arith

pub length-u32_bytes : (n : ℕ) → length (u32_bytes n) ≡ 4
unfolding u32_bytes
length-u32_bytes n = refl

pub unpack_u32-Decodes : (n : ℕ) → n < 2 ^ 32 → Decodes unpack_u32 (u32_bytes n) n
unfolding unpack_u32
unpack_u32-Decodes n h =
    bind_pure-Decodes of_bytes
      (buffer_unpack-Decodes 4 (u32_bytes n) (length-u32_bytes n) (omega arith))
      (of_bytes-u32_bytes n h)

-- An `int` is in the range of 32 bits.
abbrev pub IsInt : ℤ → Type 0
IsInt (pos n) = n < 2 ^ 31
IsInt (negsuc n) = n < 2 ^ 31

pub signed32-pattern32 : (z : ℤ) → IsInt z → signed32 (pattern32 z) ≡ z
unfolding signed32 pattern32
signed32-pattern32 (pos n) h = ground arith
signed32-pattern32 (negsuc n) h = ground arith

pattern32-lt : (z : ℤ) → pattern32 z < 2 ^ 32
unfolding pattern32
pattern32-lt (pos n) = omega arith
pattern32-lt (negsuc n) = omega arith

pub unpack_int-Decodes : (z : ℤ) → IsInt z → Decodes unpack_int (u32_bytes (pattern32 z)) z
unfolding unpack_int
unpack_int-Decodes z h =
    bind_pure-Decodes signed32 (unpack_u32-Decodes (pattern32 z) (pattern32-lt z))
      (signed32-pattern32 z h)

pub c_string-append : (s : Text) → NoNul s → c_string (s ++ 0 ∷ []) ≡ ok s
unfolding c_string
c_string-append [] h = refl
c_string-append (c ∷ s) h = ground (arith, c_string-append s h.1)

length-append_nul : (s : Text) → length (s ++ 0 ∷ []) ≡ length s + 1
length-append_nul s = omega (arith, length-append s (0 ∷ []))

-- The text that `buffer_pack_string` packs is what `buffer_unpack_string` returns.
pub buffer_unpack_string-Decodes :
    (s : Text) → IsText s → Decodes buffer_unpack_string (buffer_pack_string [] s) s
unfolding buffer_unpack_string buffer_pack_string
buffer_unpack_string-Decodes s t = bind-Decodes _ (unpack_u32-Decodes _ (omega arith)) (
    bind_last-Decodes _
      (buffer_unpack-Decodes _ _ (omega (arith, length-append_nul s, t.short)) (omega arith))
      (lift-Decodes _ (c_string-append s t.no_nul)))

-- A packed text: its length with the NUL, the text, the NUL.
pub text_bytes : Text → List ℕ
text_bytes s = buffer_pack_string [] s

pub buffer_pack_string-append : (b : Buffer) (s : Text) → buffer_pack_string b s ≡ b ++ text_bytes s
unfolding text_bytes buffer_pack_string pack_u32 buffer_pack
buffer_pack_string-append b s = simp append_assoc

pub text_bytes-Decodes : (s : Text) → IsText s → Decodes buffer_unpack_string (text_bytes s) s
unfolding text_bytes
text_bytes-Decodes s t = buffer_unpack_string-Decodes s t

pub pack_u32-append : (b : Buffer) (n : ℕ) → pack_u32 b n ≡ b ++ u32_bytes n
unfolding pack_u32 buffer_pack
pack_u32-append b n = refl

-- A packed `int`.
pub int_bytes : ℤ → List ℕ
int_bytes z = u32_bytes (pattern32 z)

pub pack_int-append : (b : Buffer) (z : ℤ) → pack_int b z ≡ b ++ int_bytes z
unfolding pack_int pack_u32 buffer_pack int_bytes
pack_int-append b z = refl

pub int_bytes-Decodes : (z : ℤ) → IsInt z → Decodes unpack_int (int_bytes z) z
unfolding int_bytes
int_bytes-Decodes z h = unpack_int-Decodes z h

pub length-int_bytes : (z : ℤ) → length (int_bytes z) ≡ 4
unfolding int_bytes u32_bytes
length-int_bytes z = refl

pub text_bytes_lem :
    (s : Text) → text_bytes s ≡ u32_bytes ((length s + 1) % 2 ^ 32) ++ (s ++ 0 ∷ [])
unfolding text_bytes buffer_pack_string pack_u32 buffer_pack
text_bytes_lem s = refl

pub length-text_bytes : (s : Text) → length (text_bytes s) ≡ length s + 5
unfolding text_bytes buffer_pack_string pack_u32 buffer_pack u32_bytes
length-text_bytes s = omega (arith, length-append_nul s)

pub buffer_pack-append : (b : Buffer) (xs : List ℕ) → buffer_pack b xs ≡ b ++ xs
unfolding buffer_pack
buffer_pack-append b xs = refl

-- Packing appends.
pub ruleset packing =
    (buffer_pack-append, pack_u32-append, pack_int-append, buffer_pack_string-append, append_assoc)
