-- ===== src/Kernel/Planificador/Espera.antt =====
-- How long a process of READY waits for the short-term planner.
pub mod Crecimiento
use tp_so20231c.Common.{
  ℕ, zero, suc, ◌<◌, ◌≤◌, ◌≡◌, refl, sym, ap, ◌∙◌, List, [], ◌∷◌, ◌++◌, append-nil, Option, some,
  Bool, true, false, ◌==◌, ◌||◌, Text, codes, str_eq, length, ltb, arith, get_elem?, not,
}
use tp_so20231c.Common.Int.{ℤ, negsuc}
use tp_so20231c.Utils.Segments.{int_eq}
use tp_so20231c.Kernel.Recursos.{buscar_posicion_recurso, hay_elementos_wait}
use tp_so20231c.Kernel.Sistema.{
  Sistema, sigue, push_pcb_estado, e_pop_primer_proceso, pop_blocked, estado_en_exit,
}
use tp_so20231c.Kernel.Planificador.{
  nuevo_pcb_new, planificador_largo_plazo, elegir_proceso, planificador_corto_plazo, execute_pcb,
  caso_yield, caso_io, caso_wait, caso_signal, caso_truncate, unblocked_pcb_after_fs, truncate,
  unblocked, caso_read_write, caso_seek, read_write, seek, Paso, nuevo, largo, corto, toma, yield,
  io, wait, signal, duerme,
}
use tp_so20231c.Kernel.Planificador.Turnos.{
  Bien, espera-Bien, abrazo-Bien, cae-Bien, sigue-Bien, if-Bien, lista-Bien, opcion-Bien,
  entero-Bien, Bien-sigue,
}
use tp_so20231c.Kernel.Planificador.Invariante.{primero}
use tp_so20231c.Kernel.Planificador.Espera.Crecimiento.{
  el_primero, Crece, igual, largo-Crece, toma-Crece, io-Crece, unblocked-Crece, wait-Crece,
  signal-Crece, yield-Crece, truncate-Crece, read_write-Crece, seek-Crece, corto-Saca, duerme-Crece,
  primer_semaforo-Crece,
}

get_elem?-append : (l k : List ℕ) (i p : ℕ) → get_elem? l i ≡ some p → get_elem? (l ++ k) i ≡ some p
get_elem?-append [] k i p e = ground arith
get_elem?-append (x ∷ l) k zero p e = e
get_elem?-append (x ∷ l) k (suc i) p e = get_elem?-append l k i p e

module _ (algoritmo : Text) (elegido : List ℕ → ℕ) (basura : ℤ) (recursos : List Text) where
  -- A turn in which the short-term planner, behind its first semaphore, chooses a process.
  abbrev pub es_corto : (s s' : Sistema) → Paso algoritmo elegido basura recursos s s' → Bool
  es_corto s s' (corto _ _ _) = not (s.en_corto == 0)
  es_corto s s' _ = false

  -- Turns of the threads, with the number of those in which the short-term planner chooses.
  pub data Corrida : Sistema → ℕ → Sistema → Type 0 where
    fin : (s : Sistema) → Corrida s 0 s
    elige :
        (s s' t : Sistema) (n : ℕ)
        → (s.en_corto == 0) ≡ false
        → planificador_corto_plazo algoritmo elegido s ≡ sigue s'
        → Corrida s' n t
        → Corrida s (suc n) t
    otro :
        (s s' t : Sistema) (n : ℕ)
        → (a : Paso algoritmo elegido basura recursos s s') → es_corto s s' a ≡ false
        → Corrida s' n t
        → Corrida s n t

  otro-Crece :
      (s s' : Sistema) (a : Paso algoritmo elegido basura recursos s s')
      → es_corto s s' a ≡ false
      → Crece s s'
  unfolding nuevo_pcb_new
  otro-Crece s _ (nuevo _) e = igual s.e_ready
  otro-Crece s s' (largo _ _ h) e = Bien-sigue Unit _ _ s' (largo-Crece s) h
  otro-Crece s s' (corto _ _ h) e =
      Bien-sigue Unit _ _ s' (primer_semaforo-Crece algoritmo elegido s (ground arith)) h
  otro-Crece s s' (toma _ _ h) e = Bien-sigue Unit _ _ s' (toma-Crece s) h
  otro-Crece s s' (yield _ _ p o h) e = Bien-sigue Unit _ _ s' (yield-Crece s p) h
  otro-Crece s s' (io _ _ p o h) e = Bien-sigue Unit _ _ s' (io-Crece s p) h
  otro-Crece s s' (duerme _ _ h) e = Bien-sigue Unit _ _ s' (duerme-Crece s) h
  otro-Crece s s' (truncate _ _ p o h) e = Bien-sigue Unit _ _ s' (truncate-Crece s p) h
  otro-Crece s s' (read_write _ _ p o h) e = Bien-sigue Unit _ _ s' (read_write-Crece s p) h
  otro-Crece s s' (seek _ _ p o h) e = Bien-sigue Unit _ _ s' (seek-Crece s p) h
  otro-Crece s s' (unblocked _ _ h) e = Bien-sigue Unit _ _ s' (unblocked-Crece s) h
  otro-Crece s s' (wait _ _ p r o h) e = Bien-sigue Unit _ _ s' (wait-Crece s p recursos r) h
  otro-Crece s s' (signal _ _ p r o h) e =
      Bien-sigue Unit _ _ s' (signal-Crece s p basura recursos r) h

  -- Within the run the planner, behind at most i of its choices, puts p into EXECUTE.
  pub record Elegido (s : Sistema) (i p : ℕ) (t : Sistema) : Type 0 where
    pub antes : ℕ
    pub u : Sistema
    pub u' : Sistema
    pub despues : ℕ
    pub pronto : antes ≤ i
    pub hasta : Corrida s antes u
    pub elegia : (u.en_corto == 0) ≡ false
    pub turno : planificador_corto_plazo algoritmo elegido u ≡ sigue u'
    pub pasa : u'.e_execute ≡ u.e_execute ++ p ∷ []
    pub desde : Corrida u' despues t

  tras_elige :
      (s s' : Sistema) (i p : ℕ) (t : Sistema)
      → (s.en_corto == 0) ≡ false
      → planificador_corto_plazo algoritmo elegido s ≡ sigue s'
      → Elegido s' i p t
      → Elegido s (suc i) p t
  tras_elige s s' i p t k h e = record {
    antes = suc e.antes;
    u = e.u;
    u' = e.u';
    despues = e.despues;
    pronto = omega (arith, e.pronto);
    hasta = elige s s' e.u e.antes k h e.hasta;
    elegia = e.elegia;
    turno = e.turno;
    pasa = e.pasa;
    desde = e.desde;
  }

  tras_otro :
      (s s' : Sistema) (i p : ℕ) (t : Sistema) (a : Paso algoritmo elegido basura recursos s s')
      → es_corto s s' a ≡ false
      → Elegido s' i p t
      → Elegido s i p t
  tras_otro s s' i p t a h e = record {
    antes = e.antes;
    u = e.u;
    u' = e.u';
    despues = e.despues;
    pronto = e.pronto;
    hasta = otro s s' e.u e.antes a h e.hasta;
    elegia = e.elegia;
    turno = e.turno;
    pasa = e.pasa;
    desde = e.desde;
  }

  module _ (fifo : str_eq algoritmo (codes "FIFO") ≡ true) where
    -- A process at place i of READY, counted from 0, of a FIFO kernel: whatever turns the threads
    -- take, in whatever order, if the short-term planner chooses more than i times, one of its first
    -- i + 1 choices puts the process into EXECUTE.
    pub espera_acotada :
        (s t : Sistema) (n i p : ℕ)
        → Corrida s n t
        → get_elem? s.e_ready i ≡ some p
        → i < n
        → Elegido s i p t
    espera_acotada s t n i p (fin _) e h = elim h [ ]
    espera_acotada s t _ zero p (elige _ s' _ n k a c) e h =
        let x = Bien-sigue Unit _ _ s' (corto-Saca algoritmo elegido fifo s k) a in
        record {
          antes = 0;
          u = s;
          u' = s';
          despues = n;
          pronto = omega arith;
          hasta = fin s;
          elegia = k;
          turno = a;
          pasa = x.1.1 ∙ ap (λ q. s.e_execute ++ q ∷ []) (el_primero (x.0) p (rw (x.1.0) at e));
          desde = c;
        }
    espera_acotada s t _ (suc i) p (elige _ s' _ n k a c) e h =
        let x = Bien-sigue Unit _ _ s' (corto-Saca algoritmo elegido fifo s k) a in
        tras_elige s s' i p t k a (espera_acotada s' t n i p c (rw (x.1.0) at e) (omega arith))
    espera_acotada s t n i p (otro _ s' _ _ a k c) e h =
        let x = otro-Crece s s' a k in
        tras_otro s s' i p t a k
          (espera_acotada s' t n i p c (rw (x.1) (get_elem?-append s.e_ready (x.0) i p e)) h)
