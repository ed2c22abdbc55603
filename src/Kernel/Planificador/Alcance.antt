-- ===== src/Kernel/Planificador/Alcance.antt =====
-- What holds in every system that a kernel can come to.
use tp_so20231c.Common.{ℕ, ◌+◌, ◌≤◌, ◌≡◌, ◌≢◌, List, true, Text, codes, str_eq, length, ltb}
use tp_so20231c.Common.Int.{ℤ}
use tp_so20231c.Kernel.Planificador.Turnos.{Bien-sigue, Bien-cae, if-Bien, cae-Bien, sigue-Bien}
use tp_so20231c.Kernel.Sistema.{Sistema, cae, inicializar_planificador}
use tp_so20231c.Kernel.Planificador.{
  planificador_largo_plazo, planificador_corto_plazo, execute_pcb, unblocked_pcb_after_fs, truncate,
  unblocked, read_write, seek, Paso, nuevo, largo, corto, toma, yield, io, wait, signal, Alcanza,
  empieza, avanza, despertar_io, duerme,
}
use tp_so20231c.Kernel.Planificador.Invariante.{
  Inv, ocupado, inicializar-Inv, nuevo_pcb_new-Inv, largo-Inv, corto-Inv, execute_pcb-Inv,
}
use tp_so20231c.Kernel.Planificador.Respuestas.{
  yield-Inv, io-Inv, wait-Inv, signal-Inv, truncate-Inv, read_write-Inv, seek-Inv, unblocked-Inv,
  duerme-Inv,
}

module _ (algoritmo : Text) (elegido : List ℕ → ℕ) (basura : ℤ) (recursos : List Text)
    (fifo : str_eq algoritmo (codes "FIFO") ≡ true) where
  Paso-Inv : (s s' : Sistema) → Paso algoritmo elegido basura recursos s s' → Inv s → Inv s'
  Paso-Inv s s' (nuevo _) i = nuevo_pcb_new-Inv s i
  Paso-Inv s s' (largo _ _ h) i = Bien-sigue ⊥ Inv _ s' (largo-Inv s i) h
  Paso-Inv s s' (corto _ _ h) i = Bien-sigue ⊥ Inv _ s' (corto-Inv algoritmo elegido fifo s i) h
  Paso-Inv s s' (toma _ _ h) i = Bien-sigue ⊥ Inv _ s' (execute_pcb-Inv s i) h
  Paso-Inv s s' (yield _ _ p o h) i = Bien-sigue Unit Inv _ s' (yield-Inv s p o i) h
  Paso-Inv s s' (io _ _ p o h) i = Bien-sigue Unit Inv _ s' (io-Inv s p o i) h
  Paso-Inv s s' (duerme _ _ h) i = Bien-sigue ⊥ Inv _ s' (duerme-Inv s i) h
  Paso-Inv s s' (truncate _ _ p o h) i = Bien-sigue Unit Inv _ s' (truncate-Inv s p o i) h
  Paso-Inv s s' (read_write _ _ p o h) i = Bien-sigue Unit Inv _ s' (read_write-Inv s p o i) h
  Paso-Inv s s' (seek _ _ p o h) i = Bien-sigue Unit Inv _ s' (seek-Inv s p o i) h
  Paso-Inv s s' (unblocked _ _ h) i = Bien-sigue ⊥ Inv _ s' (unblocked-Inv s i) h
  Paso-Inv s s' (wait _ _ p r o h) i = Bien-sigue Unit Inv _ s' (wait-Inv s p o i recursos r) h
  Paso-Inv s s' (signal _ _ p r o h) i =
      Bien-sigue Unit Inv _ s' (signal-Inv s p o i basura recursos r) h

  Alcanza-Inv :
      (lugar grado : ℕ) (instancias : List ℤ) (s : Sistema)
      → Alcanza algoritmo elegido basura recursos lugar grado instancias s
      → Inv s
  unfolding inicializar_planificador
  Alcanza-Inv lugar grado instancias s (empieza _ e) =
      Bien-sigue Unit Inv _ s
        (if-Bien _ _ (ltb lugar 8) _ _ (λ _. cae-Bien _ _ tt)
          (λ _. sigue-Bien _ _ _ (inicializar-Inv grado instancias)))
        e
  Alcanza-Inv lugar grado instancias s' (avanza s _ a p) =
      Paso-Inv s s' p (Alcanza-Inv lugar grado instancias s a)

  -- In every system that a FIFO kernel whose start does not fall can come to, by turns of its threads
  -- in any order, the semaphores of NEW and READY, with the one or none that a planner has taken and
  -- not yet used, count the processes in those queues, that of EXECUTE no more than there are, and of
  -- four things exactly one is the case: the execution is free, a process waits in EXECUTE to be
  -- taken, a process is being executed, or the thread waits for the end of a process's I/O.
  pub un_solo_proceso :
      (lugar grado : ℕ) (instancias : List ℤ) (s : Sistema)
      → Alcanza algoritmo elegido basura recursos lugar grado instancias s
      → (s.execute_libre + s.sem_execute + ocupado s.corriendo + ocupado s.en_io ≡ 1)
        × (s.sem_ready + s.en_corto ≡ length s.e_ready)
        × (s.sem_execute ≤ length s.e_execute)
        × (s.nuevos_pcbs_ready + s.en_largo ≡ length s.e_new)
        × (s.en_corto ≤ 1)
        × (s.en_largo ≤ 1)
  un_solo_proceso lugar grado instancias s a =
      let i = Alcanza-Inv lugar grado instancias s a in
      (i.exclusion, i.listos, i.ejecutan, i.nuevos, i.un_corto, i.un_largo)

  -- In every system that a FIFO kernel whose start does not fall can come to, by turns of its threads
  -- in any order that do not overlap, neither planner, nor the thread that executes, takes a process
  -- from an empty queue, and the thread behind the filesystem and the one that waits for an I/O find
  -- the process that they send back among the blocked ones.
  pub planificadores_no_caen :
      (lugar grado : ℕ) (instancias : List ℤ) (s : Sistema)
      → Alcanza algoritmo elegido basura recursos lugar grado instancias s
      → (planificador_largo_plazo s ≢ cae)
        × (planificador_corto_plazo algoritmo elegido s ≢ cae)
        × (execute_pcb s ≢ cae)
        × (unblocked_pcb_after_fs s ≢ cae)
        × (despertar_io s ≢ cae)
  planificadores_no_caen lugar grado instancias s a =
      let i = Alcanza-Inv lugar grado instancias s a in
      (
        Bien-cae Inv _ (largo-Inv s i),
        Bien-cae Inv _ (corto-Inv algoritmo elegido fifo s i),
        Bien-cae Inv _ (execute_pcb-Inv s i),
        Bien-cae Inv _ (unblocked-Inv s i),
        Bien-cae Inv _ (duerme-Inv s i),
      )
