-- ===== src/Cpu/Rafaga/Fin.antt =====
-- A turn of the CPU ends.
use tp_so20231c.Common.{
  ℕ, zero, suc, ◌+◌, ◌-◌, ◌%◌, ◌^◌, ◌<◌, ◌≡◌, ◌≢◌, refl, List, [], ◌∷◌, ◌++◌, Outcome, ok, Text,
  length, get_elem?, arith, Cumple, ok-Cumple, bind-Cumple, if-Cumple,
}
use tp_so20231c.Common.Int.{ℤ}
use tp_so20231c.Utils.Types.{CpuResponse, Instruccion}
use tp_so20231c.Cpu.Decode.{
  Mensaje, no_manda_contexto, instruccion_no_desaloja, desreferenciar, decode,
}
use tp_so20231c.Cpu.Decode.Efecto.{decode_lem}
use tp_so20231c.Cpu.Rafaga.{Final, sin_fin, proxima, correr, rafaga}

-- The instructions from the program counter on.
abbrev pub resta : CpuResponse → ℕ
resta info = length info.lista_instrucciones - info.pc

-- What the contexts to come can make the CPU carry out.
abbrev pub pendientes : List CpuResponse → ℕ
pendientes [] = 0
pendientes (k ∷ ks) = suc (length k.lista_instrucciones) + pendientes ks

abbrev pub Cortas : List CpuResponse → Type 0
Cortas [] = Unit
Cortas (k ∷ ks) = (length k.lista_instrucciones < 2 ^ 31) × Cortas ks

fetch_bound :
    (is : List Instruccion) (n : ℕ) (i : Instruccion)
    → desreferenciar (get_elem? is n) ≡ ok i
    → n < length is
fetch_bound [] n i h = ground arith
fetch_bound (x ∷ is) zero i h = omega arith
fetch_bound (x ∷ is) (suc n) i h = omega (arith, fetch_bound is n i h)

avanza :
    (len pc pc' : ℕ)
    → len < 2 ^ 31
    → pc < len
    → pc' ≡ (pc + 1) % 2 ^ 32
    → suc (len - pc') ≡ len - pc
avanza len pc pc' h k e = omega arith

-- A step within the list: one instruction less is left, and the list stays.
paso :
    (memoria : ℤ → ℤ → ℤ → Outcome Text) (tam : Text) (info info' : CpuResponse) (i : Instruccion)
    (ms : List Mensaje)
    → length info.lista_instrucciones < 2 ^ 31
    → proxima info ≡ ok i
    → decode memoria tam info i ≡ ok (info', ms)
    → (length info'.lista_instrucciones < 2 ^ 31) × (suc (resta info') ≡ resta info)
unfolding proxima
paso memoria tam info info' i ms c e d =
    let h = decode_lem memoria tam info info' i ms d in
    rw (h.2) (
      c,
      avanza (length info.lista_instrucciones) info.pc info'.pc c
          (fetch_bound info.lista_instrucciones info.pc i e) (h.1),
    )

Cede : Final → Type 0
Cede f = f ≢ sin_fin

correr-Cede :
    (memoria : ℤ → ℤ → ℤ → Outcome Text) (tam : Text) (n : ℕ) (kernel : List CpuResponse)
    (info : CpuResponse) (prox : Instruccion) (ms : List Mensaje)
    → length info.lista_instrucciones < 2 ^ 31
    → Cortas kernel
    → resta info + pendientes kernel < n
    → Cumple Cede (correr memoria tam n kernel info prox ms)
unfolding correr Cede
correr-Cede memoria tam zero kernel info prox ms c cs h = absurd (omega arith)
correr-Cede memoria tam (suc n) [] info prox ms c cs h =
    if-Cumple _ (instruccion_no_desaloja prox) _ _
      (λ _.
        if-Cumple _ (no_manda_contexto prox) _ _
          (λ _. bind-Cumple _ (proxima info) _ λ i e.
            bind-Cumple _ (decode memoria tam info i) _ λ r d.
              let p = paso memoria tam info (r.0) i (r.1) c e d in
              bind-Cumple _ (proxima (r.0)) _ λ i' _.
                correr-Cede memoria tam n [] (r.0) i' (ms ++ r.1) (p.0) cs (omega (arith, p.1)))
          (λ _. bind-Cumple _ (proxima info) _ λ i _.
            bind-Cumple _ (decode memoria tam info i) _ λ r _. ok-Cumple _ (λ x. ground arith)))
      (λ _. bind-Cumple _ (decode memoria tam info prox) _ λ r _. ok-Cumple _ (λ x. ground arith))
correr-Cede memoria tam (suc n) (k ∷ ks) info prox ms c cs h =
    if-Cumple _ (instruccion_no_desaloja prox) _ _
      (λ _.
        if-Cumple _ (no_manda_contexto prox) _ _
          (λ _. bind-Cumple _ (proxima info) _ λ i e.
            bind-Cumple _ (decode memoria tam info i) _ λ r d.
              let p = paso memoria tam info (r.0) i (r.1) c e d in
              bind-Cumple _ (proxima (r.0)) _ λ i' _.
                correr-Cede memoria tam n (k ∷ ks) (r.0) i' (ms ++ r.1) (p.0) cs
                  (omega (arith, p.1)))
          (λ _. bind-Cumple _ (proxima info) _ λ i _.
            bind-Cumple _ (decode memoria tam info i) _ λ r _.
              bind-Cumple _ (proxima k) _
                λ i' _. correr-Cede memoria tam n ks k i' (ms ++ r.1) (cs.0) (cs.1) (omega arith)))
      (λ _. bind-Cumple _ (decode memoria tam info prox) _ λ r _. ok-Cumple _ (λ x. ground arith))

-- A turn of the CPU does not run out of fuel, when the fuel is above the instructions left plus the
-- lengths of the lists that the kernel may send, one more for each, and every list is shorter than
-- 2 ^ 31: it gives the processor up, waits for a context that does not come, or stops with an error.
pub rafaga_termina :
    (memoria : ℤ → ℤ → ℤ → Outcome Text) (tam : Text) (n : ℕ) (kernel : List CpuResponse)
    (info : CpuResponse)
    → length info.lista_instrucciones < 2 ^ 31
    → Cortas kernel
    → resta info + pendientes kernel < n
    → rafaga memoria tam n kernel info ≢ ok sin_fin
unfolding rafaga Cede Cumple
rafaga_termina memoria tam n kernel info c cs h e =
    bind-Cumple Cede (proxima info) _ (λ i _. correr-Cede memoria tam n kernel info i [] c cs h)
      sin_fin e refl
