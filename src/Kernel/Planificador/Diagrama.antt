-- ===== src/Kernel/Planificador/Diagrama.antt =====
-- The diagram of states that the planners are for, and that the turns of the threads follow it. The
-- diagram forgets the order of the queues and the semaphores.
pub mod Arcos
use mathlib.Core.Quot
use mathlib.Core.Quot.{Quot, Quot-set}
use tp_so20231c.Common.{
  ℕ, ◌≡◌, refl, sym, ap, ◌∙◌, List, ◌∷◌, Option, none, some, Bool, true, false, ◌==◌, ◌||◌, Text,
  codes, str_eq, arith, [], if◌then◌else◌,
}
use tp_so20231c.Common.Int.{ℤ}
use tp_so20231c.Kernel.Recursos.{buscar_posicion_recurso, hay_elementos_wait}
use tp_so20231c.Kernel.Sistema.{
  Sistema, push_pcb_estado, e_pop_primer_proceso, pop_blocked, estado_en_exit,
}
use tp_so20231c.Kernel.Planificador.{
  nuevo_pcb_new, planificador_largo_plazo, elegir_proceso, planificador_corto_plazo, execute_pcb,
  caso_yield, caso_io, caso_wait, caso_truncate, unblocked_pcb_after_fs, truncate, unblocked,
  caso_read_write, caso_seek, read_write, seek, Paso, nuevo, largo, corto, toma, yield, io, wait,
  signal, despertar_io, duerme,
}
use tp_so20231c.Kernel.Planificador.Turnos.{
  Bien, espera-Bien, abrazo-Bien, cae-Bien, sigue-Bien, if-Bien, lista-Bien, opcion-Bien,
  entero-Bien, Bien-sigue,
}
use tp_so20231c.Kernel.Planificador.Invariante.{primero}
use tp_so20231c.Kernel.Planificador.Cuenta.{cuenta, cuenta-push, cuenta-pop, cuenta-pop_blocked}
use tp_so20231c.Kernel.Planificador.Diagrama.Arcos.{
  bolsa, poner, bolsa-push, bolsa-pop, bolsa-pop_blocked, Vista, con_el_que_corre, vista, Arco,
  arco, llega, admite, despacha, desaloja, bloquea, despierta, quieto, Flecha, llegada, admision,
  despacho, desalojo, bloqueo, despertar, ninguna,
}

-- The first of a queue, where it has one.
abbrev pub primera : List ℕ → ℕ
primera [] = 0
primera (p ∷ l) = p

abbrev pub el_de : Option ℕ → ℕ
el_de none = 0
el_de (some p) = p

-- A turn follows the arrow.
abbrev Sigue : Flecha → Sistema → Sistema → Type 0
Sigue f s s' = Arco f (vista s) (vista s')

-- Behind its first semaphore a planner moves the first of its queue; before, none.
abbrev pub si_paso : ℕ → Flecha → Flecha
si_paso n f = if n == 0 then ninguna else f

antes : (n : ℕ) (f : Flecha) → (n == 0) ≡ true → si_paso n f ≡ ninguna
antes n f e = rw e refl

despues : (n : ℕ) (f : Flecha) → (n == 0) ≡ false → si_paso n f ≡ f
despues n f e = rw e refl

module _ (s : Sistema) where
  nuevo-Sigue : Sigue (llegada s.next_pid) s (nuevo_pcb_new s)
  unfolding nuevo_pcb_new
  nuevo-Sigue =
      arco refl refl (ap (λ b. record (vista s) { nuevos = b }) (bolsa-push s.e_new s.next_pid))
        (llega s.next_pid (vista s))

  largo-Sigue :
      Bien Unit
        (Sigue (si_paso s.en_largo (admision (primera s.e_new))) s)
        (planificador_largo_plazo s)
  unfolding planificador_largo_plazo
  largo-Sigue =
      if-Bien _ _ (s.en_largo == 0) _ _
        (λ k.
          if-Bien _ _ (s.nuevos_pcbs_ready == 0) _ _ (λ _. espera-Bien _ _)
            (λ _. sigue-Bien _ _ _ (arco (antes s.en_largo _ k) refl refl (quieto (vista s)))))
        (λ k.
          if-Bien _ _ (s.grado_multiprogramacion == 0) _ _ (λ _. espera-Bien _ _)
            (λ _.
              lista-Bien _ _ s.e_new _ _ (λ _. cae-Bien _ _ tt)
                (λ p l e. sigue-Bien _ _ _ (
                  arco (despues s.en_largo _ k ∙ ap (λ x. admision (primera x)) e)
                    (ap (λ b. record (vista s) { nuevos = bolsa b }) e)
                    (ap (λ b. record (vista s) { nuevos = bolsa l; listos = b })
                      (bolsa-push s.e_ready p))
                    (admite p (record (vista s) { nuevos = bolsa l }))))))

  corto-Sigue :
      (algoritmo : Text) (elegido : List ℕ → ℕ)
      → str_eq algoritmo (codes "FIFO") ≡ true
      → Bien Unit
          (Sigue (si_paso s.en_corto (despacho (primera s.e_ready))) s)
          (planificador_corto_plazo algoritmo elegido s)
  unfolding planificador_corto_plazo e_pop_primer_proceso
  corto-Sigue algoritmo elegido fifo =
      if-Bien _ _ (s.en_corto == 0) _ _
        (λ k.
          if-Bien _ _ (s.sem_ready == 0) _ _ (λ _. espera-Bien _ _)
            (λ _. sigue-Bien _ _ _ (arco (antes s.en_corto _ k) refl refl (quieto (vista s)))))
        (λ k.
          if-Bien _ _ (s.execute_libre == 0) _ _ (λ _. espera-Bien _ _)
            (λ _.
              opcion-Bien _ _ (elegir_proceso algoritmo elegido s.e_ready) _ _
                (λ _. cae-Bien _ _ tt)
                (λ r e.
                  let d = sym (primero algoritmo elegido fifo s.e_ready) ∙ e in
                  sigue-Bien _ _ _ (
                    arco (despues s.en_corto _ k ∙ ap despacho (es_primera s.e_ready r d))
                      (ap (λ b. record (vista s) { listos = b }) (bolsa-pop s.e_ready r d))
                      (ap (λ b. record (vista s) { listos = bolsa (r.1); en_cpu = b })
                        (bolsa-corre s.corriendo s.e_execute (r.0)))
                      (despacha (r.0) (record (vista s) { listos = bolsa (r.1) }))))))
    where
      es_primera : (l : List ℕ) (r : ℕ × List ℕ) → e_pop_primer_proceso l ≡ some r → primera l ≡ r.0
      es_primera [] r e = ground arith
      es_primera (x ∷ l) r e = let h : (x, l) ≡ r = ground arith in ap (λ y. y.0) h

      bolsa-corre :
          (o : Option ℕ) (l : List ℕ) (p : ℕ)
          → bolsa (con_el_que_corre o (push_pcb_estado l p))
            ≡ poner p (bolsa (con_el_que_corre o l))
      bolsa-corre none l p = bolsa-push l p
      bolsa-corre (some x) l p = Quot.sound (λ q. omega (arith, cuenta-push q l p))

  -- The view, when the process p is being executed and when none is.
  abbrev ejecutando : Option ℕ → Vista
  ejecutando o = record (vista s) { en_cpu = bolsa (con_el_que_corre o s.e_execute) }

  toma-Sigue : Bien Unit (Sigue ninguna s) (execute_pcb s)
  unfolding execute_pcb
  toma-Sigue =
      opcion-Bien _ _ s.corriendo _ _
        (λ n.
          opcion-Bien _ _ s.en_io _ _
            (λ _.
              if-Bien _ _ (s.sem_execute == 0) _ _ (λ _. espera-Bien _ _)
                (λ _.
                  opcion-Bien _ _ (e_pop_primer_proceso s.e_execute) _ _ (λ _. cae-Bien _ _ tt)
                    (λ r e. sigue-Bien _ _ _ (
                      arco refl
                        (ap ejecutando n
                          ∙ ap (λ b. record (vista s) { en_cpu = b }) (bolsa-pop s.e_execute r e))
                        refl (quieto _)))))
            (λ _ _. espera-Bien _ _))
        (λ _ _. espera-Bien _ _)

  -- A blocked process is woken.
  vuelve-Sigue :
      (p : ℕ) (l : List ℕ)
      → pop_blocked s.e_blocked p ≡ some l
      → Arco
          (despertar p)
          (vista s)
          (record (vista s) { bloqueados = bolsa l; listos = bolsa (push_pcb_estado s.e_ready p) })
  vuelve-Sigue p l e =
      arco refl
        (ap (λ b. record (vista s) { bloqueados = b }) (bolsa-pop_blocked s.e_blocked l p e))
        (ap (λ b. record (vista s) { bloqueados = bolsa l; listos = b }) (bolsa-push s.e_ready p))
        (despierta p (record (vista s) { bloqueados = bolsa l }))

  unblocked-Sigue : Bien Unit (Sigue (despertar (primera s.en_fs)) s) (unblocked_pcb_after_fs s)
  unfolding unblocked_pcb_after_fs
  unblocked-Sigue =
      lista-Bien _ _ s.en_fs _ _ (λ _. espera-Bien _ _)
        (λ p resto f.
          if-Bien _ _ (s.envio_bloqueo_fs == 0) _ _ (λ _. espera-Bien _ _)
            (λ _.
              opcion-Bien _ _ (pop_blocked s.e_blocked p) _ _ (λ _. cae-Bien _ _ tt)
                (λ l e.
                  sigue-Bien _ _ _
                    (arco (ap (λ x. despertar (primera x)) f) refl refl (vuelve-Sigue p l e)))))

  duerme-Sigue : Bien Unit (Sigue (despertar (el_de s.en_io)) s) (despertar_io s)
  unfolding despertar_io
  duerme-Sigue =
      opcion-Bien _ _ s.en_io _ _ (λ _. espera-Bien _ _)
        (λ p f.
          opcion-Bien _ _ (pop_blocked s.e_blocked p) _ _ (λ _. cae-Bien _ _ tt)
            (λ l e.
              sigue-Bien _ _ _
                (arco (ap (λ x. despertar (el_de x)) f) refl refl (vuelve-Sigue p l e))))

  module _ (p : ℕ) (o : s.corriendo ≡ some p) where
    -- The view without p.
    abbrev sin_p : Vista
    sin_p = ejecutando none

    yield-Sigue : Bien Unit (Sigue (desalojo p) s) (caso_yield s p)
    unfolding caso_yield
    yield-Sigue = sigue-Bien _ _ _ (
        arco refl (ap ejecutando o) (ap (λ b. record sin_p { listos = b }) (bolsa-push s.e_ready p))
          (desaloja p sin_p))

    truncate-Sigue : Bien Unit (Sigue (bloqueo p) s) (caso_truncate s p)
    unfolding caso_truncate
    truncate-Sigue = sigue-Bien _ _ _ (
        arco refl (ap ejecutando o)
          (ap (λ b. record sin_p { bloqueados = b }) (bolsa-push s.e_blocked p)) (bloquea p sin_p))

    read_write-Sigue : Bien Unit (Sigue (bloqueo p) s) (caso_read_write s p)
    unfolding caso_read_write caso_truncate
    read_write-Sigue = truncate-Sigue

    seek-Sigue : Bien Unit (Sigue ninguna s) (caso_seek s p)
    unfolding caso_seek
    seek-Sigue = sigue-Bien _ _ _ (
        arco refl (ap ejecutando o)
          (ap (λ b. record sin_p { en_cpu = b }) (bolsa-push s.e_execute p)) (quieto _))

    io-Sigue : Bien Unit (Sigue (bloqueo p) s) (caso_io s p)
    unfolding caso_io
    io-Sigue = sigue-Bien _ _ _ (
        arco refl (ap ejecutando o)
          (ap (λ b. record sin_p { bloqueados = b }) (bolsa-push s.e_blocked p)) (bloquea p sin_p))

    wait-Sigue :
        (recursos : List Text) (r : Text) → Bien Unit (Sigue ninguna s) (caso_wait recursos r s p)
    unfolding caso_wait estado_en_exit
    wait-Sigue recursos r =
        entero-Bien _ _ (buscar_posicion_recurso recursos r) _ _
          (λ k _.
            opcion-Bien _ _ (hay_elementos_wait s.instancias k) _ _ (λ _. cae-Bien _ _ tt)
              (λ x _.
                entero-Bien _ _ (x.0) _ _
                  (λ _ _. sigue-Bien _ _ _ (
                    arco refl (ap ejecutando o)
                      (ap (λ b. record sin_p { en_cpu = b }) (bolsa-push s.e_execute p))
                      (quieto _)))
                  (λ _. cae-Bien _ _ tt)))
          (λ _. abrazo-Bien _ _)

module _ (algoritmo : Text) (elegido : List ℕ → ℕ) (basura : ℤ) (recursos : List Text) where
  abbrev pub es_signal : (s s' : Sistema) → Paso algoritmo elegido basura recursos s s' → Bool
  es_signal s s' (signal _ _ _ _ _ _) = true
  es_signal s s' _ = false

  -- The arrow that a turn is for.
  abbrev pub flecha : (s s' : Sistema) → Paso algoritmo elegido basura recursos s s' → Flecha
  flecha s s' (nuevo _) = llegada s.next_pid
  flecha s s' (largo _ _ _) = si_paso s.en_largo (admision (primera s.e_new))
  flecha s s' (corto _ _ _) = si_paso s.en_corto (despacho (primera s.e_ready))
  flecha s s' (toma _ _ _) = ninguna
  flecha s s' (yield _ _ p _ _) = desalojo p
  flecha s s' (io _ _ p _ _) = bloqueo p
  flecha s s' (duerme _ _ _) = despertar (el_de s.en_io)
  flecha s s' (truncate _ _ p _ _) = bloqueo p
  flecha s s' (read_write _ _ p _ _) = bloqueo p
  flecha s s' (seek _ _ _ _ _) = ninguna
  flecha s s' (unblocked _ _ _) = despertar (primera s.en_fs)
  flecha s s' (wait _ _ _ _ _ _) = ninguna
  flecha s s' (signal _ _ _ _ _ _) = ninguna

  -- Every turn of a thread of a FIFO kernel, but an answer to SIGNAL, moves just the process, and just
  -- along the arrow of the diagram, that it is for: a new one comes to NEW; the planners, each behind
  -- its first semaphore, take the first of NEW to READY and the first of READY to EXECUTE; YIELD takes
  -- the process that executes back to READY, I/O, F_TRUNCATE, F_READ and F_WRITE take it to BLOCKED;
  -- the end of its I/O, or the filesystem's answer, takes a process from BLOCKED to READY. WAIT,
  -- F_SEEK, a planner's first semaphore and the taking of a process leave all where they are. What the
  -- four places hold, without their order, changes by that arrow alone.
  pub turno_sigue :
      (s s' : Sistema) (t : Paso algoritmo elegido basura recursos s s')
      → str_eq algoritmo (codes "FIFO") ≡ true
      → es_signal s s' t ≡ false
      → Arco (flecha s s' t) (vista s) (vista s')
  turno_sigue s _ (nuevo _) fifo e = nuevo-Sigue s
  turno_sigue s s' (largo _ _ h) fifo e = Bien-sigue Unit _ _ s' (largo-Sigue s) h
  turno_sigue s s' (corto _ _ h) fifo e =
      Bien-sigue Unit _ _ s' (corto-Sigue s algoritmo elegido fifo) h
  turno_sigue s s' (toma _ _ h) fifo e = Bien-sigue Unit _ _ s' (toma-Sigue s) h
  turno_sigue s s' (yield _ _ p o h) fifo e = Bien-sigue Unit _ _ s' (yield-Sigue s p o) h
  turno_sigue s s' (io _ _ p o h) fifo e = Bien-sigue Unit _ _ s' (io-Sigue s p o) h
  turno_sigue s s' (duerme _ _ h) fifo e = Bien-sigue Unit _ _ s' (duerme-Sigue s) h
  turno_sigue s s' (truncate _ _ p o h) fifo e = Bien-sigue Unit _ _ s' (truncate-Sigue s p o) h
  turno_sigue s s' (read_write _ _ p o h) fifo e = Bien-sigue Unit _ _ s' (read_write-Sigue s p o) h
  turno_sigue s s' (seek _ _ p o h) fifo e = Bien-sigue Unit _ _ s' (seek-Sigue s p o) h
  turno_sigue s s' (unblocked _ _ h) fifo e = Bien-sigue Unit _ _ s' (unblocked-Sigue s) h
  turno_sigue s s' (wait _ _ p r o h) fifo e =
      Bien-sigue Unit _ _ s' (wait-Sigue s p o recursos r) h
  turno_sigue s s' (signal _ _ p r o h) fifo e = ground arith
