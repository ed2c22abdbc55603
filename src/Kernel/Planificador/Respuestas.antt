-- ===== src/Kernel/Planificador/Respuestas.antt =====
-- The answers of the CPU keep the invariant.
use tp_so20231c.Common.{
  ℕ, suc, ◌+◌, ◌≡◌, List, [], ◌∷◌, ◌++◌, some, Text, ap, length, length-append, ltb, ◌==◌, arith,
}
use tp_so20231c.Kernel.Planificador.Cuenta.{
  uno, cuenta, cuenta-push, cuenta-pop_blocked, no_estaba, uno_mismo, corre,
}
use tp_so20231c.Common.Int.{ℤ, negsuc}
use tp_so20231c.Utils.Segments.{int_eq}
use tp_so20231c.Kernel.Recursos.{buscar_posicion_recurso, hay_elementos_wait}
use tp_so20231c.Kernel.Planificador.Turnos.{
  Bien, espera-Bien, lista-Bien, abrazo-Bien, cae-Bien, sigue-Bien, if-Bien, opcion-Bien,
  entero-Bien,
}
use tp_so20231c.Kernel.Sistema.{Sistema, push_pcb_estado, pop_blocked, estado_en_exit}
use tp_so20231c.Kernel.Planificador.{
  caso_yield, caso_io, caso_wait, caso_signal, caso_truncate, caso_read_write, caso_seek,
  unblocked_pcb_after_fs, despertar_io,
}
use tp_so20231c.Kernel.Planificador.Invariante.{Inv, ocupado, length-push}

-- The answers of the CPU, about the process that is held.
module _ (s : Sistema) (p : ℕ) (o : s.corriendo ≡ some p) (i : Inv s) where
  tenia : s.execute_libre + s.sem_execute + ocupado s.en_io ≡ 0
  tenia = let q : ocupado s.corriendo ≡ 1 = ap ocupado o in omega (arith, i.exclusion, q)

  pub yield-Inv : Bien Unit Inv (caso_yield s p)
  unfolding caso_yield
  yield-Inv = sigue-Bien _ _ _ (record {
    exclusion = omega (arith, tenia);
    listos = omega (arith, length-push s.e_ready p, i.listos);
    ejecutan = i.ejecutan;
    nuevos = i.nuevos;
    un_corto = i.un_corto;
    un_largo = i.un_largo;
    pedidos = i.pedidos;
    bloqueados = i.bloqueados;
  })

  pub io-Inv : Bien Unit Inv (caso_io s p)
  unfolding caso_io
  io-Inv = sigue-Bien _ _ _ (record {
    exclusion = omega (arith, tenia);
    listos = i.listos;
    ejecutan = i.ejecutan;
    nuevos = i.nuevos;
    un_corto = i.un_corto;
    un_largo = i.un_largo;
    pedidos = i.pedidos;
    bloqueados = λ q. omega (arith, i.bloqueados q, cuenta-push q s.e_blocked p);
  })

  pub truncate-Inv : Bien Unit Inv (caso_truncate s p)
  unfolding caso_truncate
  truncate-Inv = sigue-Bien _ _ _ (record {
    exclusion = omega (arith, tenia);
    listos = i.listos;
    ejecutan = i.ejecutan;
    nuevos = i.nuevos;
    un_corto = i.un_corto;
    un_largo = i.un_largo;
    pedidos = omega (arith, length-append s.en_fs (p ∷ []), i.pedidos);
    bloqueados =
        λ q. omega (arith, i.bloqueados q, cuenta-push q s.e_blocked p, al_final q s.en_fs);
  })
    where
      al_final : (q : ℕ) (l : List ℕ) → cuenta q (l ++ p ∷ []) ≡ cuenta q l + uno q p
      al_final q [] = omega arith
      al_final q (x ∷ l) = omega (arith, al_final q l)

  pub read_write-Inv : Bien Unit Inv (caso_read_write s p)
  unfolding caso_read_write caso_truncate
  read_write-Inv = truncate-Inv

  pub seek-Inv : Bien Unit Inv (caso_seek s p)
  unfolding caso_seek
  seek-Inv = sigue-Bien _ _ _ (record {
    exclusion = omega (arith, tenia);
    listos = i.listos;
    ejecutan = omega (arith, length-push s.e_execute p, i.ejecutan);
    nuevos = i.nuevos;
    un_corto = i.un_corto;
    un_largo = i.un_largo;
    pedidos = i.pedidos;
    bloqueados = i.bloqueados;
  })

  pub wait-Inv : (recursos : List Text) (r : Text) → Bien Unit Inv (caso_wait recursos r s p)
  unfolding caso_wait estado_en_exit
  wait-Inv recursos r =
      entero-Bien _ _ (buscar_posicion_recurso recursos r) _ _
        (λ k _.
          opcion-Bien _ _ (hay_elementos_wait s.instancias k) _ _ (λ _. cae-Bien _ _ tt)
            (λ q _.
              entero-Bien _ _ (q.0) _ _
                (λ _ _. sigue-Bien _ _ _ (record {
                  exclusion = omega (arith, tenia);
                  listos = i.listos;
                  ejecutan = omega (arith, length-push s.e_execute p, i.ejecutan);
                  nuevos = i.nuevos;
                  un_corto = i.un_corto;
                  un_largo = i.un_largo;
                  pedidos = i.pedidos;
                  bloqueados = i.bloqueados;
                }))
                (λ _. cae-Bien _ _ tt)))
        (λ _. abrazo-Bien _ _)

  pub signal-Inv :
      (basura : ℤ) (recursos : List Text) (r : Text)
      → Bien Unit Inv (caso_signal basura recursos r s p)
  unfolding caso_signal estado_en_exit
  signal-Inv basura recursos r =
      if-Bien _ _ (int_eq basura (negsuc 0)) _ _ (λ _. abrazo-Bien _ _)
        (λ _.
          entero-Bien _ _ (buscar_posicion_recurso recursos r) _ _
            (λ k _.
              if-Bien _ _ (ltb k (length s.instancias)) _ _
                (λ _. sigue-Bien _ _ _ (record {
                  exclusion = omega (arith, tenia);
                  listos = i.listos;
                  ejecutan = omega (
                    arith,
                    length-push s.e_execute p,
                    length-push (push_pcb_estado s.e_execute p) p,
                    i.ejecutan,
                  );
                  nuevos = i.nuevos;
                  un_corto = i.un_corto;
                  un_largo = i.un_largo;
                  pedidos = i.pedidos;
                  bloqueados = i.bloqueados;
                }))
                (λ _. cae-Bien _ _ tt))
            (λ _. cae-Bien _ _ tt))

-- The process that the filesystem sends back is blocked.
pub unblocked-Inv : (s : Sistema) → Inv s → Bien ⊥ Inv (unblocked_pcb_after_fs s)
unfolding unblocked_pcb_after_fs
unblocked-Inv s i =
    lista-Bien _ _ s.en_fs _ _ (λ _. espera-Bien _ _)
      (λ p r f.
        let dentro : (q : ℕ) → cuenta q s.en_fs ≡ uno q p + cuenta q r = λ q. ap (cuenta q) f in
        let largo : length s.en_fs ≡ suc (length r) = ap length f in
        if-Bien _ _ (s.envio_bloqueo_fs == 0) _ _ (λ _. espera-Bien _ _)
          (λ _.
            opcion-Bien _ _ (pop_blocked s.e_blocked p) _ _
              (λ e.
                absurd
                  (omega (arith, i.bloqueados p, dentro p, uno_mismo p, no_estaba s.e_blocked p e)))
              (λ l e. sigue-Bien _ _ _ (record {
                exclusion = i.exclusion;
                listos = omega (arith, length-push s.e_ready p, i.listos);
                ejecutan = i.ejecutan;
                nuevos = i.nuevos;
                un_corto = i.un_corto;
                un_largo = i.un_largo;
                pedidos = omega (arith, largo, i.pedidos);
                bloqueados = λ q.
                    omega (arith, i.bloqueados q, dentro q, cuenta-pop_blocked q s.e_blocked l p e);
              }))))

-- The process whose sleep ends is blocked.
pub duerme-Inv : (s : Sistema) → Inv s → Bien ⊥ Inv (despertar_io s)
unfolding despertar_io
duerme-Inv s i =
    opcion-Bien _ _ s.en_io _ _ (λ _. espera-Bien _ _)
      (λ p f.
        let dentro : (q : ℕ) → corre q s.en_io ≡ uno q p = λ q. ap (corre q) f in
        let lleno : ocupado s.en_io ≡ 1 = ap ocupado f in
        opcion-Bien _ _ (pop_blocked s.e_blocked p) _ _
          (λ e.
            absurd
              (omega (arith, i.bloqueados p, dentro p, uno_mismo p, no_estaba s.e_blocked p e)))
          (λ l e. sigue-Bien _ _ _ (record {
            exclusion = omega (arith, lleno, i.exclusion);
            listos = omega (arith, length-push s.e_ready p, i.listos);
            ejecutan = i.ejecutan;
            nuevos = i.nuevos;
            un_corto = i.un_corto;
            un_largo = i.un_largo;
            pedidos = i.pedidos;
            bloqueados = λ q.
                omega (arith, i.bloqueados q, dentro q, cuenta-pop_blocked q s.e_blocked l p e);
          })))
