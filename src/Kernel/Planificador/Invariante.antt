-- ===== src/Kernel/Planificador/Invariante.antt =====
-- The semaphores of the planners count what stands in the queues, and one process executes at a time.
use tp_so20231c.Common.{
  ℕ, suc, ◌+◌, ◌-◌, ◌≤◌, ◌≡◌, refl, sym, ◌∙◌, List, [], ◌∷◌, Option, none, some, true, false, ◌==◌,
  Text, codes, str_eq, ap, length, length-append, arith,
}
use tp_so20231c.Common.Int.{ℤ}
use tp_so20231c.Kernel.Planificador.Turnos.{
  Bien, espera-Bien, sigue-Bien, if-Bien, lista-Bien, opcion-Bien,
}
use tp_so20231c.Kernel.Planificador.Cuenta.{cuenta, corre}
use tp_so20231c.Kernel.Sistema.{Sistema, crear_estados, push_pcb_estado, e_pop_primer_proceso}
use tp_so20231c.Kernel.Planificador.{
  nuevo_pcb_new, planificador_largo_plazo, elegir_proceso, planificador_corto_plazo, execute_pcb,
}

abbrev pub ocupado : Option ℕ → ℕ
ocupado none = 0
ocupado (some p) = 1

pub record Inv (s : Sistema) : Type 0 where
  pub exclusion : s.execute_libre + s.sem_execute + ocupado s.corriendo + ocupado s.en_io ≡ 1
  pub listos : s.sem_ready + s.en_corto ≡ length s.e_ready
  pub ejecutan : s.sem_execute ≤ length s.e_execute
  pub nuevos : s.nuevos_pcbs_ready + s.en_largo ≡ length s.e_new
  pub un_corto : s.en_corto ≤ 1
  pub un_largo : s.en_largo ≤ 1
  pub pedidos : s.envio_bloqueo_fs ≡ length s.en_fs
  pub bloqueados : (q : ℕ) → cuenta q s.en_fs + corre q s.en_io ≤ cuenta q s.e_blocked

pub length-push : (l : List ℕ) (p : ℕ) → length (push_pcb_estado l p) ≡ suc (length l)
unfolding push_pcb_estado
length-push l p = omega (arith, length-append l (p ∷ []))

pub inicializar-Inv : (grado : ℕ) (instancias : List ℤ) → Inv (crear_estados grado instancias)
unfolding crear_estados
inicializar-Inv grado instancias = record {
  exclusion = refl;
  listos = refl;
  ejecutan = omega arith;
  nuevos = refl;
  un_corto = omega arith;
  un_largo = omega arith;
  pedidos = refl;
  bloqueados = λ q. omega arith;
}

pub nuevo_pcb_new-Inv : (s : Sistema) → Inv s → Inv (nuevo_pcb_new s)
unfolding nuevo_pcb_new
nuevo_pcb_new-Inv s i = record {
  exclusion = i.exclusion;
  listos = i.listos;
  ejecutan = i.ejecutan;
  nuevos = omega (arith, length-push s.e_new s.next_pid, i.nuevos);
  pedidos = i.pedidos;
  un_corto = i.un_corto;
  un_largo = i.un_largo;
  bloqueados = i.bloqueados;
}

pub largo-Inv : (s : Sistema) → Inv s → Bien ⊥ Inv (planificador_largo_plazo s)
unfolding planificador_largo_plazo
largo-Inv s i =
    if-Bien _ _ (s.en_largo == 0) _ _
      (λ l.
        if-Bien _ _ (s.nuevos_pcbs_ready == 0) _ _ (λ _. espera-Bien _ _)
          (λ c. sigue-Bien _ _ _ (record {
            exclusion = i.exclusion;
            listos = i.listos;
            ejecutan = i.ejecutan;
            nuevos = pasa s.nuevos_pcbs_ready s.en_largo (length s.e_new) c l i.nuevos;
            un_corto = i.un_corto;
            un_largo = omega arith;
            pedidos = i.pedidos;
            bloqueados = i.bloqueados;
          })))
      (λ k.
        if-Bien _ _ (s.grado_multiprogramacion == 0) _ _ (λ _. espera-Bien _ _)
          (λ _.
            lista-Bien _ _ s.e_new _ _
              (λ e. absurd (vacia s.nuevos_pcbs_ready s.en_largo s.e_new k e i.nuevos))
              (λ p l e. sigue-Bien _ _ _ (record {
                exclusion = i.exclusion;
                listos = omega (arith, length-push s.e_ready p, i.listos);
                ejecutan = i.ejecutan;
                nuevos = resta s.nuevos_pcbs_ready s.en_largo p s.e_new l k i.un_largo e i.nuevos;
                un_corto = i.un_corto;
                un_largo = omega arith;
                pedidos = i.pedidos;
                bloqueados = i.bloqueados;
              }))))
  where
    pasa : (n g k : ℕ) → (n == 0) ≡ false → (g == 0) ≡ true → n + g ≡ k → n - 1 + 1 ≡ k
    pasa n g k c l i = ground arith

    vacia : (n g : ℕ) (l : List ℕ) → (g == 0) ≡ false → l ≡ [] → n + g ≡ length l → ⊥
    vacia n g [] c e i = ground arith
    vacia n g (x ∷ l) c e i = ground arith

    resta :
        (n g p : ℕ) (l r : List ℕ)
        → (g == 0) ≡ false
        → g ≤ 1
        → l ≡ p ∷ r
        → n + g ≡ length l
        → n + 0 ≡ length r
    resta n g p l r c u e i = let k : length l ≡ suc (length r) = ap length e in ground arith

-- First in, first out.
module _ (algoritmo : Text) (elegido : List ℕ → ℕ)
    (fifo : str_eq algoritmo (codes "FIFO") ≡ true) where
  pub primero : (l : List ℕ) → elegir_proceso algoritmo elegido l ≡ e_pop_primer_proceso l
  unfolding elegir_proceso
  primero l = rw fifo refl

  pub corto-Inv : (s : Sistema) → Inv s → Bien ⊥ Inv (planificador_corto_plazo algoritmo elegido s)
  unfolding planificador_corto_plazo e_pop_primer_proceso
  corto-Inv s i =
      if-Bien _ _ (s.en_corto == 0) _ _
        (λ l.
          if-Bien _ _ (s.sem_ready == 0) _ _ (λ _. espera-Bien _ _)
            (λ c. sigue-Bien _ _ _ (record {
              exclusion = i.exclusion;
              listos = pasa s.sem_ready s.en_corto (length s.e_ready) c l i.listos;
              ejecutan = i.ejecutan;
              nuevos = i.nuevos;
              un_corto = omega arith;
              un_largo = i.un_largo;
              pedidos = i.pedidos;
              bloqueados = i.bloqueados;
            })))
        (λ k.
          if-Bien _ _ (s.execute_libre == 0) _ _ (λ _. espera-Bien _ _)
            (λ c.
              opcion-Bien _ _ (elegir_proceso algoritmo elegido s.e_ready) _ _
                (λ e.
                  absurd
                    (hay s.sem_ready s.en_corto s.e_ready k (sym (primero s.e_ready) ∙ e) i.listos))
                (λ r e. sigue-Bien _ _ _ (record {
                  exclusion =
                      mueve s.execute_libre s.sem_execute (ocupado s.corriendo) (ocupado s.en_io) c
                        i.exclusion;
                  listos =
                      resta s.sem_ready s.en_corto s.e_ready r k i.un_corto
                        (sym (primero s.e_ready) ∙ e) i.listos;
                  ejecutan = omega (arith, length-push s.e_execute (r.0), i.ejecutan);
                  nuevos = i.nuevos;
                  un_corto = omega arith;
                  un_largo = i.un_largo;
                  pedidos = i.pedidos;
                  bloqueados = i.bloqueados;
                }))))
    where
      pasa : (n g k : ℕ) → (n == 0) ≡ false → (g == 0) ≡ true → n + g ≡ k → n - 1 + 1 ≡ k
      pasa n g k c l i = ground arith

      hay :
          (n g : ℕ) (l : List ℕ)
          → (g == 0) ≡ false
          → e_pop_primer_proceso l ≡ none
          → n + g ≡ length l
          → ⊥
      hay n g [] c e i = ground arith
      hay n g (x ∷ l) c e i = ground arith

      resta :
          (n g : ℕ) (l : List ℕ) (r : ℕ × List ℕ)
          → (g == 0) ≡ false
          → g ≤ 1
          → e_pop_primer_proceso l ≡ some r
          → n + g ≡ length l
          → n + 0 ≡ length (r.1)
      resta n g [] r c u e i = ground arith
      resta n g (x ∷ l) r c u e i = ground arith

      mueve : (g e o d : ℕ) → (g == 0) ≡ false → g + e + o + d ≡ 1 → g - 1 + (e + 1) + o + d ≡ 1
      mueve g e o d c i = ground arith

pub execute_pcb-Inv : (s : Sistema) → Inv s → Bien ⊥ Inv (execute_pcb s)
unfolding execute_pcb e_pop_primer_proceso
execute_pcb-Inv s i =
    opcion-Bien _ _ s.corriendo _ _
      (λ n.
        opcion-Bien _ _ s.en_io _ _
          (λ d.
            if-Bien _ _ (s.sem_execute == 0) _ _ (λ _. espera-Bien _ _)
              (λ c.
                opcion-Bien _ _ (e_pop_primer_proceso s.e_execute) _ _
                  (λ e. absurd (hay s.sem_execute s.e_execute c e i.ejecutan))
                  (λ r e. sigue-Bien _ _ _ (record {
                    exclusion =
                        mueve s.execute_libre s.sem_execute (ocupado s.en_io) s.corriendo c n
                          i.exclusion;
                    listos = i.listos;
                    ejecutan = resta s.sem_execute s.e_execute r e i.ejecutan;
                    nuevos = i.nuevos;
                    un_corto = i.un_corto;
                    un_largo = i.un_largo;
                    pedidos = i.pedidos;
                    bloqueados = i.bloqueados;
                  }))))
          (λ _ _. espera-Bien _ _))
      (λ p _. espera-Bien _ _)
  where
    hay : (n : ℕ) (l : List ℕ) → (n == 0) ≡ false → e_pop_primer_proceso l ≡ none → n ≤ length l → ⊥
    hay n [] c e i = ground arith
    hay n (x ∷ l) c e i = ground arith

    resta :
        (n : ℕ) (l : List ℕ) (r : ℕ × List ℕ)
        → e_pop_primer_proceso l ≡ some r
        → n ≤ length l
        → n - 1 ≤ length (r.1)
    resta n [] r e i = ground arith
    resta n (x ∷ l) r e i = ground arith

    mueve :
        (g e d : ℕ) (o : Option ℕ)
        → (e == 0) ≡ false
        → o ≡ none
        → g + e + ocupado o + d ≡ 1
        → g + (e - 1) + 1 + d ≡ 1
    mueve g e d none c n i = ground arith
    mueve g e d (some p) c n i = ground arith
