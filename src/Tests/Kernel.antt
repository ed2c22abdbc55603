-- ===== src/Tests/Kernel.antt =====
-- planificador.c: two resources, and a process from NEW to the end of its time.
use tp_so20231c.Common.{
  ℕ, ◌+◌, ◌≤◌, ◌≡◌, ◌≢◌, refl, List, [], ◌∷◌, some, none, Text, codes, str_eq, true, length, arith,
  ok, inl, ◌==◌, if◌then◌else◌,
}
use tp_so20231c.Common.Int.{pos, negsuc}
use tp_so20231c.Kernel.Recursos.{hay_elementos_wait}
use tp_so20231c.Kernel.Recursos.Leyes.{otorgadas, wait_de_mas}
use tp_so20231c.Kernel.Sistema.{Sistema, cae, inicializar_planificador}
use tp_so20231c.Kernel.Planificador.{
  nuevo_pcb_new, planificador_largo_plazo, planificador_corto_plazo, execute_pcb,
  unblocked_pcb_after_fs, caso_signal, caso_yield, Paso, nuevo, largo, corto, toma, signal, yield,
  Alcanza, empieza, avanza, despertar_io,
}
use tp_so20231c.Kernel.Planificador.Invariante.{ocupado}
use tp_so20231c.Kernel.Planificador.Alcance.{un_solo_proceso, planificadores_no_caen}
use mathlib.Core.List.{Memᴰ}
use tp_so20231c.Kernel.Hrrn.{Estimadas, list_get_maximum}
use tp_so20231c.Kernel.Hrrn.Elegido.{Iguales, GanaATodos, hrrn_lem}
use tp_so20231c.Kernel.Planificador.Espera.{Corrida, fin, elige, otro, Elegido, espera_acotada}
use tp_so20231c.Kernel.Planificador.Diagrama.{turno_sigue}
use tp_so20231c.Kernel.Planificador.Diagrama.Arcos.{Arco, vista, desalojo}
use tp_so20231c.Kernel.Planificador.Conserva.{veces, agrega, turno_conserva}

abbrev nombres : List Text
nombres = codes "DISCO" ∷ codes "RECURSO_1" ∷ []

wait_de_mas_example :
    (otorgadas 3 (pos 7 ∷ pos 2 ∷ []) 1 ≡ some (pos 7 ∷ negsuc 0 ∷ []))
    × (hay_elementos_wait (pos 7 ∷ negsuc 0 ∷ []) 1 ≡ some (negsuc 0, pos 7 ∷ negsuc 0 ∷ []))
wait_de_mas_example = wait_de_mas (pos 7 ∷ pos 2 ∷ []) 1 2 refl

abbrev fifo : Text
fifo = codes "FIFO"

-- `list_get_maximum` in a test: the first process.
abbrev elegido : List ℕ → ℕ
elegido [] = 0
elegido (p ∷ l) = p

es_fifo : str_eq fifo (codes "FIFO") ≡ true
unfolding str_eq
es_fifo = refl

abbrev vacio : Sistema
vacio = record {
  next_pid = 1;
  e_new = [];
  e_ready = [];
  e_execute = [];
  e_blocked = [];
  e_exit = [];
  corriendo = none;
  en_io = none;
  en_largo = 0;
  en_corto = 0;
  nuevos_pcbs_ready = 0;
  grado_multiprogramacion = 3;
  sem_ready = 0;
  sem_execute = 0;
  sem_exit = 0;
  execute_libre = 1;
  instancias = pos 1 ∷ pos 1 ∷ [];
  en_fs = [];
  envio_bloqueo_fs = 0;
}

abbrev en_new : Sistema
en_new = record vacio { next_pid = 2; e_new = 1 ∷ []; nuevos_pcbs_ready = 1 }

abbrev admitido : Sistema
admitido = record en_new { nuevos_pcbs_ready = 0; en_largo = 1 }

abbrev en_ready : Sistema
en_ready = record vacio {
  next_pid = 2;
  e_ready = 1 ∷ [];
  grado_multiprogramacion = 2;
  sem_ready = 1;
}

abbrev por_elegir : Sistema
por_elegir = record en_ready { sem_ready = 0; en_corto = 1 }

abbrev en_execute : Sistema
en_execute = record vacio {
  next_pid = 2;
  e_execute = 1 ∷ [];
  grado_multiprogramacion = 2;
  sem_execute = 1;
  execute_libre = 0;
}

abbrev ejecuta : Sistema
ejecuta = record vacio {
  next_pid = 2;
  corriendo = some 1;
  grado_multiprogramacion = 2;
  execute_libre = 0;
}

llega : Alcanza fifo elegido (pos 0) nombres 8 3 (pos 1 ∷ pos 1 ∷ []) ejecuta
unfolding inicializar_planificador nuevo_pcb_new planificador_largo_plazo planificador_corto_plazo
    execute_pcb
llega =
    avanza en_execute ejecuta
      (avanza por_elegir en_execute
        (avanza en_ready por_elegir
          (avanza admitido en_ready
            (avanza en_new admitido (avanza vacio en_new (empieza vacio refl) (nuevo vacio))
              (largo en_new admitido refl))
            (largo admitido en_ready refl))
          (corto en_ready por_elegir refl))
        (corto por_elegir en_execute refl))
      (toma en_execute ejecuta refl)

un_solo_proceso_example :
    (ejecuta.execute_libre + ejecuta.sem_execute + ocupado ejecuta.corriendo + ocupado ejecuta.en_io
      ≡ 1)
    × (ejecuta.sem_ready + ejecuta.en_corto ≡ length ejecuta.e_ready)
    × (ejecuta.sem_execute ≤ length ejecuta.e_execute)
    × (ejecuta.nuevos_pcbs_ready + ejecuta.en_largo ≡ length ejecuta.e_new)
    × (ejecuta.en_corto ≤ 1)
    × (ejecuta.en_largo ≤ 1)
un_solo_proceso_example =
    un_solo_proceso fifo elegido (pos 0) nombres es_fifo 8 3 (pos 1 ∷ pos 1 ∷ []) ejecuta llega

planificadores_example :
    (planificador_largo_plazo ejecuta ≢ cae)
    × (planificador_corto_plazo fifo elegido ejecuta ≢ cae)
    × (execute_pcb ejecuta ≢ cae)
    × (unblocked_pcb_after_fs ejecuta ≢ cae)
    × (despertar_io ejecuta ≢ cae)
planificadores_example =
    planificadores_no_caen fifo elegido (pos 0) nombres es_fifo 8 3 (pos 1 ∷ pos 1 ∷ []) ejecuta
      llega

abbrev tras_signal : Sistema
tras_signal = record vacio {
  next_pid = 2;
  e_execute = 1 ∷ 1 ∷ [];
  grado_multiprogramacion = 2;
  sem_execute = 1;
  execute_libre = 0;
}

un_signal : Paso fifo elegido (pos 0) nombres ejecuta tras_signal
unfolding caso_signal
un_signal = signal ejecuta tras_signal 1 (codes "DISCO") refl refl

turno_conserva_example :
    veces 1 tras_signal
    ≡ veces 1 ejecuta + agrega fifo elegido (pos 0) nombres es_fifo ejecuta tras_signal un_signal 1
turno_conserva_example =
    turno_conserva fifo elegido (pos 0) nombres es_fifo ejecuta tras_signal un_signal 1

abbrev fila : Sistema
fila = record vacio { next_pid = 9; e_ready = 5 ∷ 7 ∷ []; sem_ready = 2 }

abbrev fila_por_elegir : Sistema
fila_por_elegir = record fila { sem_ready = 1; en_corto = 1 }

abbrev con_5 : Sistema
con_5 = record fila {
  e_ready = 7 ∷ [];
  sem_ready = 1;
  e_execute = 5 ∷ [];
  sem_execute = 1;
  execute_libre = 0;
}

abbrev corre_5 : Sistema
corre_5 = record con_5 { e_execute = []; sem_execute = 0; corriendo = some 5 }

abbrev tras_yield : Sistema
tras_yield = record vacio { next_pid = 9; e_ready = 7 ∷ 5 ∷ []; sem_ready = 2 }

abbrev yield_por_elegir : Sistema
yield_por_elegir = record tras_yield { sem_ready = 1; en_corto = 1 }

abbrev con_7 : Sistema
con_7 = record con_5 { e_ready = 5 ∷ []; e_execute = 7 ∷ [] }

-- Process 5 is chosen, runs and yields; then 7 is chosen.
dos_turnos : Corrida fifo elegido (pos 0) nombres fila 2 con_7
unfolding planificador_corto_plazo execute_pcb caso_yield
dos_turnos = otro fila fila_por_elegir con_7 2 (corto fila fila_por_elegir refl) refl (
    elige fila_por_elegir con_5 con_7 1 refl refl (
      otro con_5 corre_5 con_7 1 (toma con_5 corre_5 refl) refl (
        otro corre_5 tras_yield con_7 1 (yield corre_5 tras_yield 5 refl refl) refl (
          otro tras_yield yield_por_elegir con_7 1 (corto tras_yield yield_por_elegir refl) refl
            (elige yield_por_elegir con_7 con_7 0 refl refl (fin con_7))))))

espera_acotada_example : Elegido fifo elegido (pos 0) nombres fila 1 7 con_7
espera_acotada_example =
    espera_acotada fifo elegido (pos 0) nombres es_fifo fila con_7 2 1 7 dos_turnos refl
      (omega arith)

turno_sigue_example : Arco (desalojo 5) (vista corre_5) (vista tras_yield)
unfolding caso_yield
turno_sigue_example =
    turno_sigue fifo elegido (pos 0) nombres corre_5 tras_yield
      (yield corre_5 tras_yield 5 refl refl) es_fifo refl

abbrev esperas : ℕ → ℕ
esperas p = if p == 1 then 25 else if p == 2 then 47 else 41

hrrn_example :
    (m : ℕ) × (est' : Estimadas) × (list_get_maximum
        (pos 0)
        (λ _. pos 10)
        esperas
        (λ _. pos 10)
        1
        (2 ∷ 3 ∷ [])
      ≡ ok (m, est'))
    × Memᴰ m (1 ∷ 2 ∷ 3 ∷ [])
    × GanaATodos esperas 10 m (1 ∷ 2 ∷ 3 ∷ [])
    × Iguales (pos 0) (λ _. pos 10) esperas 10 est'
hrrn_example =
    hrrn_lem (pos 0) (λ _. pos 10) esperas 10 (inl refl) (λ q. refl) (omega arith) (λ _. pos 10) 1
      (2 ∷ 3 ∷ []) (λ q. refl)
