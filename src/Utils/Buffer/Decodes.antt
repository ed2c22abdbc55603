-- ===== src/Utils/Buffer/Decodes.antt =====
-- That an unpacking step reads back some bytes, whatever stands behind them in the buffer.
use tp_so20231c.Common.{◌≡◌, refl, List, [], ◌++◌, append_assoc, Outcome, ok, ℕ}
use tp_so20231c.Utils.Buffer.{Buffer, Unpack, pure, lift, ◌>>=◌}

-- In front of any rest, `m` takes exactly `bytes` and returns `a`.
pub record Decodes {A : Type 0} (m : Unpack A) (bytes : List ℕ) (a : A) : Type 0 where
  pub reads : (rest : Buffer) → m (bytes ++ rest) ≡ ok (a, rest)

pub pure-Decodes : {A : Type 0} (a : A) → Decodes (pure a) [] a
pure-Decodes a = record { reads = λ rest. refl }

pub bind-Decodes :
    {A B : Type 0} {m : Unpack A} (f : A → Unpack B) {xs ys : List ℕ} {a : A} {b : B}
    → Decodes m xs a
    → Decodes (f a) ys b
    → Decodes (m >>= f) (xs ++ ys) b
bind-Decodes {m = m} f {xs = xs} {ys = ys} d e = record {
  reads = λ rest. rw (append_assoc xs ys rest, d.reads (ys ++ rest), ◌>>=◌) (e.reads rest);
}

-- A last step that only computes.
pub bind_pure-Decodes :
    {A B : Type 0} {m : Unpack A} (f : A → B) {xs : List ℕ} {a : A} {b : B}
    → Decodes m xs a
    → f a ≡ b
    → Decodes (m >>= λ x. pure (f x)) xs b
bind_pure-Decodes f {xs = xs} d e = record { reads = λ rest. rw (d.reads rest, ◌>>=◌, e) }

-- A last step that takes nothing more.
pub bind_last-Decodes :
    {A B : Type 0} {m : Unpack A} (f : A → Unpack B) {xs : List ℕ} {a : A} {b : B}
    → Decodes m xs a
    → Decodes (f a) [] b
    → Decodes (m >>= f) xs b
bind_last-Decodes f {xs = xs} d e = record {
  reads = λ rest. rw (d.reads rest, ◌>>=◌) (e.reads rest);
}

pub lift-Decodes : {A : Type 0} (o : Outcome A) {a : A} → o ≡ ok a → Decodes (lift o) [] a
lift-Decodes o e = record { reads = λ rest. rw (e, lift) }
