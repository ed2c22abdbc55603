-- ===== src/Cpu/Rafaga/Turnos.antt =====
-- For every context that a turn of the CPU sends, but the last, it receives one.
use tp_so20231c.Common.{
  ℕ, zero, suc, ◌+◌, ◌≡◌, refl, ap, ◌∙◌, inl, inr, ◌⊎◌, List, [], ◌∷◌, ◌++◌, Bool, true, false, not,
  Outcome, ok, Text, length, arith, if◌then◌else◌, Cumple, ok-Cumple, bind-Cumple, if-Cumple,
  mono-Cumple,
}
use tp_so20231c.Common.Int.{ℤ}
use tp_so20231c.Utils.Types.{CpuResponse, Instruccion}
use tp_so20231c.Cpu.Decode.{
  Mensaje, leer, escribir, crudo, contexto, no_manda_contexto, instruccion_no_desaloja,
  hay_que_mandar_contexto, decode,
}
use tp_so20231c.Cpu.Decode.Leyes.Efectos.{Envia}
use tp_so20231c.Cpu.Decode.Efecto.{decode_lem, aviso}
use tp_so20231c.Cpu.Rafaga.{Final, sin_fin, espera, fin, proxima, correr, rafaga}

abbrev pub contextos : List Mensaje → ℕ
contextos [] = 0
contextos (leer d s p ∷ ms) = contextos ms
contextos (escribir d s p v ∷ ms) = contextos ms
contextos (contexto c ∷ ms) = suc (contextos ms)
contextos (crudo c ∷ ms) = contextos ms

contextos-append : (xs ys : List Mensaje) → contextos (xs ++ ys) ≡ contextos xs + contextos ys
contextos-append [] ys = omega arith
contextos-append (leer d s p ∷ ms) ys = contextos-append ms ys
contextos-append (escribir d s p v ∷ ms) ys = contextos-append ms ys
contextos-append (contexto c ∷ ms) ys = omega (arith, contextos-append ms ys)
contextos-append (crudo c ∷ ms) ys = contextos-append ms ys

propios_sin_contexto :
    (tam : Text) (info : CpuResponse) (n : ℕ) (ms : List Mensaje)
    → Envia tam info n ms
    → contextos ms ≡ 0
propios_sin_contexto tam info n ms (inl e) = rw e refl
propios_sin_contexto tam info n ms (inr (e, leer d s p, h, k)) = rw h refl
propios_sin_contexto tam info n ms (inr (e, escribir d s p v, h, k)) = rw h refl
propios_sin_contexto tam info n ms (inr (e, contexto c, h, k)) = absurd k
propios_sin_contexto tam info n ms (inr (e, crudo c, h, k)) = rw h refl

contextos-aviso :
    (i : Instruccion) (info : CpuResponse)
    → contextos (aviso i info) ≡ (if hay_que_mandar_contexto i then 1 else 0)
contextos-aviso i info =
    elim (hay_que_mandar_contexto i)
      as (λ b. contextos (if b then contexto info ∷ [] else []) ≡ (if b then 1 else 0)) [
        | true ↦ refl
        | false ↦ refl
      ]

decode-contextos :
    (memoria : ℤ → ℤ → ℤ → Outcome Text) (tam : Text) (info info' : CpuResponse) (i : Instruccion)
    (ms : List Mensaje)
    → decode memoria tam info i ≡ ok (info', ms)
    → contextos ms ≡ (if hay_que_mandar_contexto i then 1 else 0)
decode-contextos memoria tam info info' i ms d =
    let h = decode_lem memoria tam info info' i ms d in
    rw
      (
        h.6,
        contextos-append (h.5) (aviso i info'),
        propios_sin_contexto tam info i.nombre (h.5) (h.7),
        contextos-aviso i info',
      )
      (omega arith)

-- The loop takes an instruction for one that sends no context exactly when `decode` sends none, and
-- every instruction that ends the loop is one that sends it.
pub no_manda_lem :
    (i : Instruccion)
    → (no_manda_contexto i ≡ not (hay_que_mandar_contexto i))
      × ((instruccion_no_desaloja i ≡ true) ⊎ (hay_que_mandar_contexto i ≡ true))
unfolding no_manda_contexto hay_que_mandar_contexto instruccion_no_desaloja
no_manda_lem i = ground arith

-- With `previos` contexts sent before: what a turn adds to them, in terms of those to be received.
abbrev pub Cuenta : ℕ → List CpuResponse → Final → Type 0
Cuenta previos kernel sin_fin = Unit
Cuenta previos kernel (espera ms) = contextos ms ≡ suc (previos + length kernel)
Cuenta previos kernel (fin info ms resto) =
    contextos ms + length resto ≡ suc (previos + length kernel)

manda_uno :
    (memoria : ℤ → ℤ → ℤ → Outcome Text) (tam : Text) (info info' : CpuResponse) (i : Instruccion)
    (previos ms : List Mensaje)
    → hay_que_mandar_contexto i ≡ true
    → decode memoria tam info i ≡ ok (info', ms)
    → contextos (previos ++ ms) ≡ suc (contextos previos)
manda_uno memoria tam info info' i previos ms h d =
    let e =
      decode-contextos memoria tam info info' i ms d ∙ ap (λ (b : Bool). if b then 1 else 0) h in
    omega (arith, contextos-append previos ms, e)

no_manda :
    (memoria : ℤ → ℤ → ℤ → Outcome Text) (tam : Text) (info info' : CpuResponse) (i : Instruccion)
    (previos ms : List Mensaje)
    → hay_que_mandar_contexto i ≡ false
    → decode memoria tam info i ≡ ok (info', ms)
    → contextos (previos ++ ms) ≡ contextos previos
no_manda memoria tam info info' i previos ms h d =
    let e =
      decode-contextos memoria tam info info' i ms d ∙ ap (λ (b : Bool). if b then 1 else 0) h in
    omega (arith, contextos-append previos ms, e)

misma : (info : CpuResponse) (i j : Instruccion) → proxima info ≡ ok i → proxima info ≡ ok j → i ≡ j
misma info i j h k = ground arith

callada : (i : Instruccion) → no_manda_contexto i ≡ true → hay_que_mandar_contexto i ≡ false
callada i h = ground (arith, (no_manda_lem i).0)

ultima : (i : Instruccion) → instruccion_no_desaloja i ≡ false → hay_que_mandar_contexto i ≡ true
ultima i h = ground (arith, (no_manda_lem i).1)

avisada : (i : Instruccion) → no_manda_contexto i ≡ false → hay_que_mandar_contexto i ≡ true
avisada i h = ground (arith, (no_manda_lem i).0)

traslada :
    (previos : ℕ) (k : CpuResponse) (ks : List CpuResponse) (f : Final)
    → Cuenta (suc previos) ks f
    → Cuenta previos (k ∷ ks) f
traslada previos k ks sin_fin h = tt
traslada previos k ks (espera ms) h = omega arith
traslada previos k ks (fin info ms resto) h = omega arith

module _ (memoria : ℤ → ℤ → ℤ → Outcome Text) (tam : Text) where
  correr-Cuenta :
      (n : ℕ) (kernel : List CpuResponse) (info : CpuResponse) (prox : Instruccion) (previos : ℕ)
      (ms : List Mensaje)
      → proxima info ≡ ok prox
      → contextos ms ≡ previos
      → Cumple (Cuenta previos kernel) (correr memoria tam n kernel info prox ms)
  unfolding correr
  correr-Cuenta zero kernel info prox previos ms p h = ok-Cumple _ tt
  correr-Cuenta (suc n) [] info prox previos ms p h =
      if-Cumple _ (instruccion_no_desaloja prox) _ _
        (λ _.
          if-Cumple _ (no_manda_contexto prox) _ _
            (λ c. bind-Cumple _ (proxima info) _ λ i e.
              bind-Cumple _ (decode memoria tam info i) _ λ r d.
                bind-Cumple _ (proxima (r.0)) _ λ i' e'.
                  correr-Cuenta n [] (r.0) i' previos (ms ++ r.1) e' (
                    no_manda memoria tam info (r.0) i ms (r.1)
                      (rw (misma info i prox e p) (callada prox c)) d
                    ∙ h))
            (λ c. bind-Cumple _ (proxima info) _ λ i e.
              bind-Cumple _ (decode memoria tam info i) _ λ r d. ok-Cumple _ (
                omega (
                  arith,
                  h,
                  manda_uno memoria tam info (r.0) i ms (r.1)
                      (rw (misma info i prox e p) (avisada prox c)) d,
                ))))
        (λ c. bind-Cumple _ (decode memoria tam info prox) _ λ r d.
          ok-Cumple _
            (omega (arith, h, manda_uno memoria tam info (r.0) prox ms (r.1) (ultima prox c) d)))
  correr-Cuenta (suc n) (k ∷ ks) info prox previos ms p h =
      if-Cumple _ (instruccion_no_desaloja prox) _ _
        (λ _.
          if-Cumple _ (no_manda_contexto prox) _ _
            (λ c. bind-Cumple _ (proxima info) _ λ i e.
              bind-Cumple _ (decode memoria tam info i) _ λ r d.
                bind-Cumple _ (proxima (r.0)) _ λ i' e'.
                  correr-Cuenta n (k ∷ ks) (r.0) i' previos (ms ++ r.1) e' (
                    no_manda memoria tam info (r.0) i ms (r.1)
                      (rw (misma info i prox e p) (callada prox c)) d
                    ∙ h))
            (λ c. bind-Cumple _ (proxima info) _ λ i e.
              bind-Cumple _ (decode memoria tam info i) _ λ r d.
                bind-Cumple _ (proxima k) _ λ i' e'. mono-Cumple _ _ _ (traslada previos k ks) (
                  correr-Cuenta n ks k i' (suc previos) (ms ++ r.1) e' (
                    manda_uno memoria tam info (r.0) i ms (r.1)
                      (rw (misma info i prox e p) (avisada prox c)) d
                    ∙ ap suc h))))
        (λ c. bind-Cumple _ (decode memoria tam info prox) _ λ r d.
          ok-Cumple _
            (omega (arith, h, manda_uno memoria tam info (r.0) prox ms (r.1) (ultima prox c) d)))

-- A turn of the CPU that gives the processor up has sent one context for each context that the
-- kernel sent back, and one more at its end; one that waits has sent one more than it has received.
pub rafaga_contextos :
    (memoria : ℤ → ℤ → ℤ → Outcome Text) (tam : Text) (n : ℕ) (kernel : List CpuResponse)
    (info : CpuResponse) (f : Final)
    → rafaga memoria tam n kernel info ≡ ok f
    → Cuenta 0 kernel f
unfolding rafaga Cumple
rafaga_contextos memoria tam n kernel info f h =
    bind-Cumple (Cuenta 0 kernel) (proxima info) _
      (λ i p. correr-Cuenta memoria tam n kernel info i 0 [] p refl) f h
