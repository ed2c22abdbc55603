-- ===== src/Memoria/Bitarray.antt =====
-- The bit array of the commons library (`bitarray_test_bit`, `bitarray_set_bit`,
-- `bitarray_clean_bit`), of which the memory uses these laws: within the `bits` of its block, a
-- write changes its own bit and no other.
use tp_so20231c.Common.{ℕ, ◌<◌, ◌≡◌, ◌≢◌, Bool, true, false}

pub record Bitarray : Type 1 where
  pub Rep : Type 0
  pub bits : ℕ
  pub test : Rep → ℕ → Bool
  pub set_bit : Rep → ℕ → Rep
  pub clean_bit : Rep → ℕ → Rep
  pub test-set_bit : (b : Rep) (i : ℕ) → i < bits → test (set_bit b i) i ≡ true
  pub test-set_bit_ne : (b : Rep) (i j : ℕ) → i < bits → i ≢ j → test (set_bit b i) j ≡ test b j
  pub test-clean_bit : (b : Rep) (i : ℕ) → i < bits → test (clean_bit b i) i ≡ false
  pub test-clean_bit_ne : (b : Rep) (i j : ℕ) → i < bits → i ≢ j → test (clean_bit b i) j ≡ test b j
