-- ===== src/Kernel/Planificador/Conserva.antt =====
-- No process is lost between the queues.
use tp_so20231c.Common.{
  ℕ, ◌+◌, ◌≡◌, sym, ◌∙◌, List, some, true, ◌==◌, Text, codes, str_eq, ap, length, ltb, arith,
}
use tp_so20231c.Common.Int.{ℤ, negsuc}
use tp_so20231c.Utils.Segments.{int_eq}
use tp_so20231c.Kernel.Recursos.{buscar_posicion_recurso, hay_elementos_wait}
use tp_so20231c.Kernel.Planificador.Turnos.{
  Bien, espera-Bien, abrazo-Bien, cae-Bien, sigue-Bien, if-Bien, lista-Bien, opcion-Bien,
  entero-Bien, Bien-sigue,
}
use tp_so20231c.Kernel.Sistema.{
  Sistema, push_pcb_estado, e_pop_primer_proceso, pop_blocked, estado_en_exit,
}
use tp_so20231c.Kernel.Planificador.{
  nuevo_pcb_new, planificador_largo_plazo, elegir_proceso, planificador_corto_plazo, execute_pcb,
  caso_yield, caso_io, caso_wait, caso_signal, caso_truncate, unblocked_pcb_after_fs, truncate,
  unblocked, caso_read_write, caso_seek, read_write, seek, Paso, nuevo, largo, corto, toma, yield,
  io, wait, signal, despertar_io, duerme,
}
use tp_so20231c.Kernel.Planificador.Invariante.{primero}
use tp_so20231c.Kernel.Planificador.Cuenta.{
  uno, cuenta, cuenta-push, cuenta-pop, cuenta-pop_blocked, corre,
}

-- How often the process stands in the queues or is being executed.
abbrev pub veces : ℕ → Sistema → ℕ
veces q s =
    cuenta q s.e_new
    + cuenta q s.e_ready
    + cuenta q s.e_execute
    + cuenta q s.e_blocked
    + corre q s.corriendo

module _ (q : ℕ) where
  -- k occurrences more.
  abbrev Mas : Sistema → ℕ → Sistema → Type 0
  Mas s k s' = veces q s' ≡ veces q s + k

  largo-Mas : (s : Sistema) → Bien Unit (Mas s 0) (planificador_largo_plazo s)
  unfolding planificador_largo_plazo
  largo-Mas s =
      if-Bien _ _ (s.en_largo == 0) _ _
        (λ _.
          if-Bien _ _ (s.nuevos_pcbs_ready == 0) _ _ (λ _. espera-Bien _ _)
            (λ _. sigue-Bien _ _ _ (omega arith)))
        (λ _.
          if-Bien _ _ (s.grado_multiprogramacion == 0) _ _ (λ _. espera-Bien _ _)
            (λ c.
              lista-Bien _ _ s.e_new _ _ (λ _. cae-Bien _ _ tt)
                (λ p l e. sigue-Bien _ _ _ (
                  let h : cuenta q s.e_new ≡ uno q p + cuenta q l = ap (cuenta q) e in
                  omega (arith, cuenta-push q s.e_ready p)))))

  corto-Mas :
      (algoritmo : Text) (elegido : List ℕ → ℕ)
      → str_eq algoritmo (codes "FIFO") ≡ true
      → (s : Sistema) → Bien Unit (Mas s 0) (planificador_corto_plazo algoritmo elegido s)
  unfolding planificador_corto_plazo
  corto-Mas algoritmo elegido fifo s =
      if-Bien _ _ (s.en_corto == 0) _ _
        (λ _.
          if-Bien _ _ (s.sem_ready == 0) _ _ (λ _. espera-Bien _ _)
            (λ _. sigue-Bien _ _ _ (omega arith)))
        (λ _.
          if-Bien _ _ (s.execute_libre == 0) _ _ (λ _. espera-Bien _ _)
            (λ c.
              opcion-Bien _ _ (elegir_proceso algoritmo elegido s.e_ready) _ _
                (λ _. cae-Bien _ _ tt)
                (λ r e. sigue-Bien _ _ _ (
                  omega (
                    arith,
                    cuenta-push q s.e_execute (r.0),
                    cuenta-pop q s.e_ready r (sym (primero algoritmo elegido fifo s.e_ready) ∙ e),
                  )))))

  toma-Mas : (s : Sistema) → Bien Unit (Mas s 0) (execute_pcb s)
  unfolding execute_pcb
  toma-Mas s =
      opcion-Bien _ _ s.corriendo _ _
        (λ n.
          opcion-Bien _ _ s.en_io _ _
            (λ _.
              if-Bien _ _ (s.sem_execute == 0) _ _ (λ _. espera-Bien _ _)
                (λ c.
                  opcion-Bien _ _ (e_pop_primer_proceso s.e_execute) _ _ (λ _. cae-Bien _ _ tt)
                    (λ r e. sigue-Bien _ _ _ (
                      let h : corre q s.corriendo ≡ 0 = ap (corre q) n in
                      omega (arith, cuenta-pop q s.e_execute r e)))))
            (λ _ _. espera-Bien _ _))
        (λ p _. espera-Bien _ _)

  duerme-Mas : (s : Sistema) → Bien Unit (Mas s 0) (despertar_io s)
  unfolding despertar_io
  duerme-Mas s =
      opcion-Bien _ _ s.en_io _ _ (λ _. espera-Bien _ _)
        (λ p _.
          opcion-Bien _ _ (pop_blocked s.e_blocked p) _ _ (λ _. cae-Bien _ _ tt)
            (λ l e.
              sigue-Bien _ _ _
                (omega (arith, cuenta-push q s.e_ready p, cuenta-pop_blocked q s.e_blocked l p e))))

  unblocked-Mas : (s : Sistema) → Bien Unit (Mas s 0) (unblocked_pcb_after_fs s)
  unfolding unblocked_pcb_after_fs
  unblocked-Mas s =
      lista-Bien _ _ s.en_fs _ _ (λ _. espera-Bien _ _)
        (λ p r _.
          if-Bien _ _ (s.envio_bloqueo_fs == 0) _ _ (λ _. espera-Bien _ _)
            (λ _.
              opcion-Bien _ _ (pop_blocked s.e_blocked p) _ _ (λ _. cae-Bien _ _ tt)
                (λ l e. sigue-Bien _ _ _ (
                  omega
                    (arith, cuenta-push q s.e_ready p, cuenta-pop_blocked q s.e_blocked l p e)))))

  module _ (s : Sistema) (p : ℕ) (o : s.corriendo ≡ some p) where
    era : corre q s.corriendo ≡ uno q p
    era = ap (corre q) o

    yield-Mas : Bien Unit (Mas s 0) (caso_yield s p)
    unfolding caso_yield
    yield-Mas = sigue-Bien _ _ _ (omega (arith, cuenta-push q s.e_ready p, era))

    io-Mas : Bien Unit (Mas s 0) (caso_io s p)
    unfolding caso_io
    io-Mas = sigue-Bien _ _ _ (omega (arith, cuenta-push q s.e_blocked p, era))

    truncate-Mas : Bien Unit (Mas s 0) (caso_truncate s p)
    unfolding caso_truncate
    truncate-Mas = sigue-Bien _ _ _ (omega (arith, cuenta-push q s.e_blocked p, era))

    read_write-Mas : Bien Unit (Mas s 0) (caso_read_write s p)
    unfolding caso_read_write caso_truncate
    read_write-Mas = truncate-Mas

    seek-Mas : Bien Unit (Mas s 0) (caso_seek s p)
    unfolding caso_seek
    seek-Mas = sigue-Bien _ _ _ (omega (arith, cuenta-push q s.e_execute p, era))

    wait-Mas : (recursos : List Text) (r : Text) → Bien Unit (Mas s 0) (caso_wait recursos r s p)
    unfolding caso_wait estado_en_exit
    wait-Mas recursos r =
        entero-Bien _ _ (buscar_posicion_recurso recursos r) _ _
          (λ k _.
            opcion-Bien _ _ (hay_elementos_wait s.instancias k) _ _ (λ _. cae-Bien _ _ tt)
              (λ x _.
                entero-Bien _ _ (x.0) _ _
                  (λ _ _. sigue-Bien _ _ _ (omega (arith, cuenta-push q s.e_execute p, era)))
                  (λ _. cae-Bien _ _ tt)))
          (λ _. abrazo-Bien _ _)

    signal-Mas :
        (basura : ℤ) (recursos : List Text) (r : Text)
        → Bien Unit (Mas s (uno q p)) (caso_signal basura recursos r s p)
    unfolding caso_signal estado_en_exit
    signal-Mas basura recursos r =
        if-Bien _ _ (int_eq basura (negsuc 0)) _ _ (λ _. abrazo-Bien _ _)
          (λ _.
            entero-Bien _ _ (buscar_posicion_recurso recursos r) _ _
              (λ k _.
                if-Bien _ _ (ltb k (length s.instancias)) _ _
                  (λ _. sigue-Bien _ _ _ (
                    omega (
                      arith,
                      cuenta-push q s.e_execute p,
                      cuenta-push q (push_pcb_estado s.e_execute p) p,
                      era,
                    )))
                  (λ _. cae-Bien _ _ tt))
              (λ _. cae-Bien _ _ tt))

module _ (algoritmo : Text) (elegido : List ℕ → ℕ) (basura : ℤ) (recursos : List Text)
    (fifo : str_eq algoritmo (codes "FIFO") ≡ true) where
  -- The process that a turn brings in.
  abbrev pub agrega : (s s' : Sistema) → Paso algoritmo elegido basura recursos s s' → ℕ → ℕ
  agrega s s' (nuevo _) q = uno q s.next_pid
  agrega s s' (signal _ _ p r o h) q = uno q p
  agrega s s' _ q = 0

  -- A turn of any thread of a FIFO kernel leaves every process in the queues, or in execution, as
  -- often as it was, with two exceptions: a new process comes in once, and a SIGNAL puts the process
  -- that executes it into the queue of EXECUTE once too often.
  pub turno_conserva :
      (s s' : Sistema) (t : Paso algoritmo elegido basura recursos s s') (q : ℕ)
      → veces q s' ≡ veces q s + agrega s s' t q
  unfolding nuevo_pcb_new
  turno_conserva s _ (nuevo _) q = omega (arith, cuenta-push q s.e_new s.next_pid)
  turno_conserva s s' (largo _ _ h) q = Bien-sigue Unit _ _ s' (largo-Mas q s) h
  turno_conserva s s' (corto _ _ h) q =
      Bien-sigue Unit _ _ s' (corto-Mas q algoritmo elegido fifo s) h
  turno_conserva s s' (toma _ _ h) q = Bien-sigue Unit _ _ s' (toma-Mas q s) h
  turno_conserva s s' (yield _ _ p o h) q = Bien-sigue Unit _ _ s' (yield-Mas q s p o) h
  turno_conserva s s' (io _ _ p o h) q = Bien-sigue Unit _ _ s' (io-Mas q s p o) h
  turno_conserva s s' (duerme _ _ h) q = Bien-sigue Unit _ _ s' (duerme-Mas q s) h
  turno_conserva s s' (truncate _ _ p o h) q = Bien-sigue Unit _ _ s' (truncate-Mas q s p o) h
  turno_conserva s s' (read_write _ _ p o h) q = Bien-sigue Unit _ _ s' (read_write-Mas q s p o) h
  turno_conserva s s' (seek _ _ p o h) q = Bien-sigue Unit _ _ s' (seek-Mas q s p o) h
  turno_conserva s s' (unblocked _ _ h) q = Bien-sigue Unit _ _ s' (unblocked-Mas q s) h
  turno_conserva s s' (wait _ _ p r o h) q = Bien-sigue Unit _ _ s' (wait-Mas q s p o recursos r) h
  turno_conserva s s' (signal _ _ p r o h) q =
      Bien-sigue Unit _ _ s' (signal-Mas q s p o basura recursos r) h
