-- ===== src/Cpu/Registros/Escritura.antt =====
-- What a write to a register changes.
use tp_so20231c.Common.{
  ℕ, zero, suc, ◌+◌, ◌≤◌, ◌<◌, ◌≡◌, refl, ap, ◌∙◌, ◌⊎◌, List, [], ◌∷◌, ok, fault, arith, length,
  set, get_elem?, length-set, get_elem?-set_self, get_elem?-set_ne, lt→ltb,
}
use tp_so20231c.Cpu.Registros.{Registros, escribir_desde}

-- The block with `bytes` laid over it from `off` on.
pub encima : ℕ → List ℕ → Registros → Registros
encima off [] regs = regs
encima off (b ∷ bs) regs = encima (suc off) bs (set regs off b)

pub escribir_desde-ok :
    (off : ℕ) (bs : List ℕ) (regs : Registros)
    → off + length bs ≤ length regs
    → escribir_desde off bs regs ≡ ok (encima off bs regs)
unfolding escribir_desde encima
escribir_desde-ok off [] regs h = refl
escribir_desde-ok off (b ∷ bs) regs h =
    rw (lt→ltb off (length regs) (omega arith))
      (escribir_desde-ok (suc off) bs (set regs off b) (omega (arith, length-set regs off b)))

pub length-encima :
    (off : ℕ) (bs : List ℕ) (regs : Registros) → length (encima off bs regs) ≡ length regs
unfolding encima
length-encima off [] regs = refl
length-encima off (b ∷ bs) regs =
    length-encima (suc off) bs (set regs off b) ∙ length-set regs off b

-- Outside of the bytes laid over it the block is as it was.
pub encima_fuera :
    (off : ℕ) (bs : List ℕ) (regs : Registros) (i : ℕ)
    → (i < off) ⊎ (off + length bs ≤ i)
    → get_elem? (encima off bs regs) i ≡ get_elem? regs i
unfolding encima
encima_fuera off [] regs i h = refl
encima_fuera off (b ∷ bs) regs i h =
    encima_fuera (suc off) bs (set regs off b) i (omega arith)
    ∙ get_elem?-set_ne regs b (omega arith)

-- Inside it has those bytes.
pub encima_dentro :
    (off : ℕ) (bs : List ℕ) (regs : Registros) (i : ℕ)
    → i < length bs
    → off + length bs ≤ length regs
    → get_elem? (encima off bs regs) (off + i) ≡ get_elem? bs i
unfolding encima
encima_dentro off [] regs i h k = elim h [ ]
encima_dentro off (b ∷ bs) regs zero h k =
    encima_fuera (suc off) bs (set regs off b) (off + 0) (omega arith)
    ∙ ap (get_elem? (set regs off b)) (omega arith)
    ∙ get_elem?-set_self regs off b (omega arith)
encima_dentro off (b ∷ bs) regs (suc i) h k =
    ap (get_elem? (encima (suc off) bs (set regs off b))) (omega arith)
    ∙ encima_dentro (suc off) bs (set regs off b) i (omega arith)
        (omega (arith, length-set regs off b))

pub escribir_desde-fault :
    (off : ℕ) (bs : List ℕ) (regs : Registros)
    → length regs < off + length bs
    → off ≤ length regs
    → escribir_desde off bs regs ≡ fault
unfolding escribir_desde
escribir_desde-fault off [] regs h k = absurd (omega arith)
escribir_desde-fault off (b ∷ bs) regs h k =
    ground (arith, length-set regs off b, escribir_desde-fault (suc off) bs (set regs off b))
