-- ===== src/Kernel/Planificador/Espera/Crecimiento.antt =====
-- What a turn does to the queue of READY: it grows at its end, or its first process is taken.
use tp_so20231c.Common.{
  ℕ, ◌≡◌, refl, sym, ap, ◌∙◌, List, [], ◌∷◌, ◌++◌, append-nil, Option, some, true, ◌==◌, Text,
  codes, str_eq, length, ltb, arith, Bool, false,
}
use tp_so20231c.Common.Int.{ℤ, negsuc}
use tp_so20231c.Utils.Segments.{int_eq}
use tp_so20231c.Kernel.Recursos.{buscar_posicion_recurso, hay_elementos_wait}
use tp_so20231c.Kernel.Sistema.{
  Sistema, push_pcb_estado, e_pop_primer_proceso, pop_blocked, estado_en_exit,
}
use tp_so20231c.Kernel.Planificador.{
  planificador_largo_plazo, elegir_proceso, planificador_corto_plazo, execute_pcb, caso_yield,
  caso_io, caso_wait, caso_signal, caso_truncate, unblocked_pcb_after_fs, caso_read_write,
  caso_seek, despertar_io,
}
use tp_so20231c.Kernel.Planificador.Turnos.{
  Bien, espera-Bien, abrazo-Bien, cae-Bien, sigue-Bien, if-Bien, lista-Bien, opcion-Bien,
  entero-Bien,
}
use tp_so20231c.Kernel.Planificador.Invariante.{primero}

pub el_primero : (q p : ℕ) → Option.some q ≡ some p → q ≡ p
el_primero q p e = ground arith

-- Only grown, at its end.
abbrev Alarga : List ℕ → List ℕ → Type 0
Alarga l l' = (k : List ℕ) × (l' ≡ l ++ k)

abbrev pub Crece : Sistema → Sistema → Type 0
Crece s s' = Alarga s.e_ready s'.e_ready

-- The first of READY is put behind those of EXECUTE.
abbrev Saca : Sistema → ℕ → Sistema → Type 0
Saca s p s' = (s.e_ready ≡ p ∷ s'.e_ready) × (s'.e_execute ≡ s.e_execute ++ p ∷ [])

pub igual : (l : List ℕ) → Alarga l l
igual l = ([], sym (append-nil l))

agregado : (l : List ℕ) (p : ℕ) → Alarga l (push_pcb_estado l p)
unfolding push_pcb_estado
agregado l p = (p ∷ [], refl)

pub largo-Crece : (s : Sistema) → Bien Unit (Crece s) (planificador_largo_plazo s)
unfolding planificador_largo_plazo
largo-Crece s =
    if-Bien _ _ (s.en_largo == 0) _ _
      (λ _.
        if-Bien _ _ (s.nuevos_pcbs_ready == 0) _ _ (λ _. espera-Bien _ _)
          (λ _. sigue-Bien _ _ _ (igual s.e_ready)))
      (λ _.
        if-Bien _ _ (s.grado_multiprogramacion == 0) _ _ (λ _. espera-Bien _ _)
          (λ _.
            lista-Bien _ _ s.e_new _ _ (λ _. cae-Bien _ _ tt)
              (λ p l e. sigue-Bien _ _ _ (agregado s.e_ready p))))

pub toma-Crece : (s : Sistema) → Bien Unit (Crece s) (execute_pcb s)
unfolding execute_pcb
toma-Crece s =
    opcion-Bien _ _ s.corriendo _ _
      (λ _.
        opcion-Bien _ _ s.en_io _ _
          (λ _.
            if-Bien _ _ (s.sem_execute == 0) _ _ (λ _. espera-Bien _ _)
              (λ _.
                opcion-Bien _ _ (e_pop_primer_proceso s.e_execute) _ _ (λ _. cae-Bien _ _ tt)
                  (λ r e. sigue-Bien _ _ _ (igual s.e_ready))))
          (λ _ _. espera-Bien _ _))
      (λ _ _. espera-Bien _ _)

-- The first of the planner's two semaphores.
pub primer_semaforo-Crece :
    (algoritmo : Text) (elegido : List ℕ → ℕ) (s : Sistema)
    → (s.en_corto == 0) ≡ true
    → Bien Unit (Crece s) (planificador_corto_plazo algoritmo elegido s)
unfolding planificador_corto_plazo
primer_semaforo-Crece algoritmo elegido s k =
    if-Bien _ _ (s.en_corto == 0) _ _
      (λ _.
        if-Bien _ _ (s.sem_ready == 0) _ _ (λ _. espera-Bien _ _)
          (λ _. sigue-Bien _ _ _ (igual s.e_ready)))
      (λ n. absurd (ambos (s.en_corto == 0) k n))
  where
    ambos : (b : Bool) → b ≡ true → b ≡ false → ⊥
    ambos b k n = ground arith

pub io-Crece : (s : Sistema) (p : ℕ) → Bien Unit (Crece s) (caso_io s p)
unfolding caso_io
io-Crece s p = sigue-Bien _ _ _ (igual s.e_ready)

pub duerme-Crece : (s : Sistema) → Bien Unit (Crece s) (despertar_io s)
unfolding despertar_io
duerme-Crece s =
    opcion-Bien _ _ s.en_io _ _ (λ _. espera-Bien _ _)
      (λ p _.
        opcion-Bien _ _ (pop_blocked s.e_blocked p) _ _ (λ _. cae-Bien _ _ tt)
          (λ l _. sigue-Bien _ _ _ (agregado s.e_ready p)))

pub unblocked-Crece : (s : Sistema) → Bien Unit (Crece s) (unblocked_pcb_after_fs s)
unfolding unblocked_pcb_after_fs
unblocked-Crece s =
    lista-Bien _ _ s.en_fs _ _ (λ _. espera-Bien _ _)
      (λ pid resto _.
        if-Bien _ _ (s.envio_bloqueo_fs == 0) _ _ (λ _. espera-Bien _ _)
          (λ _.
            opcion-Bien _ _ (pop_blocked s.e_blocked pid) _ _ (λ _. cae-Bien _ _ tt)
              (λ l _. sigue-Bien _ _ _ (agregado s.e_ready pid))))

pub wait-Crece :
    (s : Sistema) (p : ℕ) (recursos : List Text) (r : Text)
    → Bien Unit (Crece s) (caso_wait recursos r s p)
unfolding caso_wait estado_en_exit
wait-Crece s p recursos r =
    entero-Bien _ _ (buscar_posicion_recurso recursos r) _ _
      (λ k _.
        opcion-Bien _ _ (hay_elementos_wait s.instancias k) _ _ (λ _. cae-Bien _ _ tt)
          (λ x _.
            entero-Bien _ _ (x.0) _ _ (λ _ _. sigue-Bien _ _ _ (igual s.e_ready))
              (λ _. cae-Bien _ _ tt)))
      (λ _. abrazo-Bien _ _)

pub signal-Crece :
    (s : Sistema) (p : ℕ) (basura : ℤ) (recursos : List Text) (r : Text)
    → Bien Unit (Crece s) (caso_signal basura recursos r s p)
unfolding caso_signal estado_en_exit
signal-Crece s p basura recursos r =
    if-Bien _ _ (int_eq basura (negsuc 0)) _ _ (λ _. abrazo-Bien _ _)
      (λ _.
        entero-Bien _ _ (buscar_posicion_recurso recursos r) _ _
          (λ k _.
            if-Bien _ _ (ltb k (length s.instancias)) _ _ (λ _. sigue-Bien _ _ _ (igual s.e_ready))
              (λ _. cae-Bien _ _ tt))
          (λ _. cae-Bien _ _ tt))

pub yield-Crece : (s : Sistema) (p : ℕ) → Bien Unit (Crece s) (caso_yield s p)
unfolding caso_yield
yield-Crece s p = sigue-Bien _ _ _ (agregado s.e_ready p)

pub truncate-Crece : (s : Sistema) (p : ℕ) → Bien Unit (Crece s) (caso_truncate s p)
unfolding caso_truncate
truncate-Crece s p = sigue-Bien _ _ _ (igual s.e_ready)

pub read_write-Crece : (s : Sistema) (p : ℕ) → Bien Unit (Crece s) (caso_read_write s p)
unfolding caso_read_write
read_write-Crece s p = sigue-Bien _ _ _ (igual s.e_ready)

pub seek-Crece : (s : Sistema) (p : ℕ) → Bien Unit (Crece s) (caso_seek s p)
unfolding caso_seek
seek-Crece s p = sigue-Bien _ _ _ (igual s.e_ready)

pub corto-Saca :
    (algoritmo : Text) (elegido : List ℕ → ℕ)
    → str_eq algoritmo (codes "FIFO") ≡ true
    → (s : Sistema) → (s.en_corto == 0) ≡ false
    → Bien Unit (λ s'. (p : ℕ) × Saca s p s') (planificador_corto_plazo algoritmo elegido s)
unfolding planificador_corto_plazo push_pcb_estado e_pop_primer_proceso
corto-Saca algoritmo elegido fifo s k =
    if-Bien _ _ (s.en_corto == 0) _ _ (λ n. absurd (ambos (s.en_corto == 0) n k))
      (λ _.
        if-Bien _ _ (s.execute_libre == 0) _ _ (λ _. espera-Bien _ _)
          (λ _.
            opcion-Bien _ _ (elegir_proceso algoritmo elegido s.e_ready) _ _ (λ _. cae-Bien _ _ tt)
              (λ r e. sigue-Bien _ _ _ (
                r.0,
                (sacado s.e_ready r (sym (primero algoritmo elegido fifo s.e_ready) ∙ e), refl),
              ))))
  where
    sacado : (l : List ℕ) (r : ℕ × List ℕ) → e_pop_primer_proceso l ≡ some r → l ≡ r.0 ∷ r.1
    sacado [] r e = ground arith
    sacado (x ∷ l) r e = let h : (x, l) ≡ r = ground arith in ap (λ q. q.0 ∷ q.1) h

    ambos : (b : Bool) → b ≡ true → b ≡ false → ⊥
    ambos b k n = ground arith
