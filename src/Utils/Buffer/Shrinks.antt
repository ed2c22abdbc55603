-- ===== src/Utils/Buffer/Shrinks.antt =====
-- That an unpacking step leaves no more in the buffer than it found.
use tp_so20231c.Common.{
  ℕ, ◌+◌, ◌≤◌, ◌≡◌, refl, length, length-drop, arith, Outcome, ok, exit, fault,
}
use tp_so20231c.Utils.Buffer.{
  Buffer, Unpack, pure, lift, ◌>>=◌, buffer_unpack, unpack_u32, buffer_unpack_string, c_string,
}

pub record Shrinks {A : Type 0} (m : Unpack A) : Type 0 where
  pub leaves : (b b' : Buffer) (a : A) → m b ≡ ok (a, b') → length b' ≤ length b

-- A successful chain is a successful step and a successful rest.
pub >>=-eq-ok :
    {A B : Type 0} (m : Unpack A) (f : A → Unpack B) (b b'' : Buffer) (y : B)
    → (m >>= f) b ≡ ok (y, b'')
    → (x : A) × (b' : Buffer) × (m b ≡ ok (x, b')) × (f x b' ≡ ok (y, b''))
>>=-eq-ok {A} m f b b'' y e = go (m b) refl
  where
    go :
        (o : Outcome (A × Buffer))
        → m b ≡ o
        → (x : A) × (b' : Buffer) × (m b ≡ ok (x, b')) × (f x b' ≡ ok (y, b''))
    go (ok (x, b')) h = (x, b', h, ground arith)
    go exit h = absurd (ground arith)
    go fault h = absurd (ground arith)

pub pure-Shrinks : {A : Type 0} (a : A) → Shrinks (pure a)
pure-Shrinks a = record { leaves = λ b b' a' e. ground arith }

pub lift-Shrinks : {A : Type 0} (o : Outcome A) → Shrinks (lift o)
lift-Shrinks o = record { leaves = λ b b' a e. ground arith }

pub bind-Shrinks :
    {A B : Type 0} (m : Unpack A) (f : A → Unpack B)
    → Shrinks m
    → ((x : A) → Shrinks (f x))
    → Shrinks (m >>= f)
bind-Shrinks m f s t = record {
  leaves = λ b b'' y e.
      let (x, b', e1, e2) = >>=-eq-ok m f b b'' y e in
      let h = s.leaves b b' x e1 in let k = (t x).leaves b' b'' y e2 in omega arith;
}

pub buffer_unpack-Shrinks : (n : ℕ) → Shrinks (buffer_unpack n)
unfolding buffer_unpack
buffer_unpack-Shrinks n = record { leaves = λ b b' a e. ground (arith, length-drop n b) }

-- A number takes four bytes off.
pub length-unpack_u32 :
    (b b' : Buffer) (n : ℕ) → unpack_u32 b ≡ ok (n, b') → length b' + 4 ≤ length b
unfolding unpack_u32 buffer_unpack
length-unpack_u32 b b' n e = ground (arith, length-drop 4 b)

pub unpack_u32-Shrinks : Shrinks unpack_u32
unpack_u32-Shrinks = record { leaves = λ b b' n e. omega (arith, length-unpack_u32 b b' n e) }

pub buffer_unpack_string-Shrinks : Shrinks buffer_unpack_string
unfolding buffer_unpack_string
buffer_unpack_string-Shrinks =
    bind-Shrinks _ _ unpack_u32-Shrinks
      λ n. bind-Shrinks _ _ (buffer_unpack-Shrinks n) λ s. lift-Shrinks (c_string s)
