-- ===== src/Kernel/Respuesta/Banderas.antt =====
-- The instructions that the CPU tells the kernel of, and the flag of each.
use tp_so20231c.Common.{
  ℕ, ◌<◌, ◌≡◌, ◌≢◌, List, [], ◌∷◌, ◌==◌, arith, true, Bool-cases, Outcome, Text, if◌then◌else◌, ◌⊎◌,
  inl, inr, Cumple, if-Cumple, exit-Cumple, bind-Cumple, siempre-Cumple,
}
use tp_so20231c.Common.Int.{ℤ}
use tp_so20231c.Utils.Tipo
use tp_so20231c.Utils.Types.{CpuResponse, Instruccion}
use tp_so20231c.Cpu.Decode.{Mensaje, hay_que_mandar_contexto, ejecutar, decode}
use tp_so20231c.Cpu.Decode.Leyes.Efectos.{banderas, asignada}

-- The instructions that `decode` does not refuse.
conocida :
    (memoria : ℤ → ℤ → ℤ → Outcome Text) (tam : Text) (info : CpuResponse) (i : Instruccion)
    → Cumple (λ _. i.nombre < 16) (ejecutar memoria tam info i)
unfolding ejecutar
conocida memoria tam info i = rama Tipo.set _ _ (omega arith) (
    rama Tipo.mov_in _ _ (omega arith) (
      rama Tipo.mov_out _ _ (omega arith) (
        rama Tipo.f_read _ _ (omega arith) (
          rama Tipo.f_write _ _ (omega arith) (
            rama Tipo.f_truncate _ _ (omega arith) (
              rama Tipo.f_seek _ _ (omega arith) (
                rama Tipo.create_segment _ _ (omega arith) (
                  rama Tipo.io _ _ (omega arith) (
                    rama Tipo.wait _ _ (omega arith) (
                      rama Tipo.signal _ _ (omega arith) (
                        rama Tipo.f_open _ _ (omega arith) (
                          rama Tipo.f_close _ _ (omega arith) (
                            rama Tipo.delete_segment _ _ (omega arith) (
                              rama Tipo.exit _ _ (omega arith)
                                (rama Tipo.yield _ _ (omega arith) (exit-Cumple _))))))))))))))))
  where
    rama :
        (k : ℕ) (x y : Outcome (CpuResponse × List Mensaje))
        → k < 16
        → Cumple (λ _. i.nombre < 16) y
        → Cumple (λ _. i.nombre < 16) (if i.nombre == k then x else y)
    rama k x y h c =
        if-Cumple _ (i.nombre == k) x y (λ e. siempre-Cumple _ x (λ _. ground arith)) (λ _. c)

pub decode-conocida :
    (memoria : ℤ → ℤ → ℤ → Outcome Text) (tam : Text) (info : CpuResponse) (i : Instruccion)
    → Cumple (λ _. i.nombre < 16) (decode memoria tam info i)
unfolding decode Cumple
decode-conocida memoria tam info i =
    bind-Cumple _ (ejecutar memoria tam info i) _ (λ r e a _. conocida memoria tam info i r e)

-- What holds of the pairs of a table holds of what is found in it.
abbrev pub Pares : (ℕ → ℕ → Type 0) → List (ℕ × ℕ) → Type 0
Pares Q [] = Unit {0}
Pares Q (b ∷ bs) = Q (b.0) (b.1) × Pares Q bs

abbrev pub Falta : ℕ → List (ℕ × ℕ) → Type 0
Falta n [] = Unit {0}
Falta n (b ∷ bs) = (n ≢ b.0) × Falta n bs

pub en_tabla :
    (Q : ℕ → ℕ → Type 0) (bs : List (ℕ × ℕ)) (n otra : ℕ)
    → Pares Q bs
    → Q n (asignada bs n otra) ⊎ Falta n bs
en_tabla Q [] n otra h = inr tt
en_tabla Q (b ∷ bs) n otra h = elim (Bool-cases (n == b.0)) [
  | inl e ↦ let q : n ≡ b.0 = ground arith in inl (rw (e, q) (h.0))
  | inr e ↦ elim (en_tabla Q bs n otra (h.1)) [
    | inl q ↦ inl (rw e q)
    | inr q ↦ inr (ground arith, q)
  ]
]

pub alguna_es :
    (i : Instruccion)
    → i.nombre < 16
    → hay_que_mandar_contexto i ≡ true
    → Falta i.nombre banderas
    → ⊥
unfolding hay_que_mandar_contexto
alguna_es i l m f = ground arith
