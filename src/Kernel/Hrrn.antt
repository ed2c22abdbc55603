-- ===== src/Kernel/Hrrn.antt =====
-- planificador.c: the priorities of HRRN. The estimates are floats that hold whole numbers, since the
-- configuration's first one is an `int` and so is `alpha`; `espera` is what `temporal_gettime` says of
-- each process at the time of the turn.
pub mod Elegido
use tp_so20231c.Common.{ℕ, List, [], ◌∷◌, Outcome, ok, exit, fault, bind, ◌==◌, if◌then◌else◌}
use tp_so20231c.Common.Int.{ℤ, pos, ◌+ℤ◌, ◌-ℤ◌, ◌*ℤ◌, ltb_ℤ}
use tp_so20231c.Cpu.Enteros.{div_int}

-- `rafaga_estimada` of each process.
abbrev pub Estimadas : Type 0
Estimadas = ℕ → ℤ

module _ (alpha : ℤ) (rafaga_real : ℕ → ℤ) (espera : ℕ → ℕ) where
  -- The new estimate, which is noted as well.
  unfoldable pub estimado : Estimadas → ℕ → ℤ
  estimado est p = alpha *ℤ rafaga_real p +ℤ (pos 1 -ℤ alpha) *ℤ est p

  unfoldable pub get_estimado_rafaga_proceso : Estimadas → ℕ → Estimadas
  unfolding estimado
  get_estimado_rafaga_proceso est p q = if q == p then estimado est p else est q

  unfoldable pub get_hrrn_proceso : Estimadas → ℕ → Outcome (ℤ × Estimadas)
  unfolding estimado get_estimado_rafaga_proceso
  get_hrrn_proceso est p =
      bind (div_int (pos (espera p)) (estimado est p))
        (λ d. ok (pos 1 +ℤ d, get_estimado_rafaga_proceso est p))

  -- Of two with one priority the one that has waited less.
  unfoldable pub mayor_hrrn : Estimadas → ℕ → ℕ → Outcome (ℕ × Estimadas)
  unfolding get_hrrn_proceso
  mayor_hrrn est p q = bind (get_hrrn_proceso est p) (λ r1. bind (get_hrrn_proceso (r1.1) q) (λ r2.
      let elegido : ℕ =
        if ltb_ℤ (r2.0) (r1.0)
        then p
        else if ltb_ℤ (r1.0) (r2.0)
        then q
        else if ltb_ℤ (pos (espera p)) (pos (espera q))
        then p
        else q in
      ok (elegido, r2.1)))

  -- `list_get_maximum` of a list with the head p.
  unfoldable pub list_get_maximum : Estimadas → ℕ → List ℕ → Outcome (ℕ × Estimadas)
  unfolding mayor_hrrn
  list_get_maximum est p [] = ok (p, est)
  list_get_maximum est p (q ∷ lista) =
      bind (mayor_hrrn est p q) (λ r. list_get_maximum (r.1) (r.0) lista)
