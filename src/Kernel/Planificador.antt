-- ===== src/Kernel/Planificador.antt =====
-- planificador.c: the two planners, the thread that executes a process with its answers to YIELD,
-- I/O, WAIT, SIGNAL, the files and the exits, the one that the filesystem wakes, and the turns that
-- they take.
pub mod Turnos
pub mod Cuenta
pub mod Invariante
pub mod Respuestas
pub mod Alcance
pub mod Conserva
pub mod Espera
pub mod Diagrama
use tp_so20231c.Common.{
  ℕ, zero, suc, ◌+◌, ◌-◌, List, [], ◌∷◌, ◌++◌, Option, none, some, Bool, ◌==◌, Text, codes, str_eq,
  set, length, ltb, ◌≡◌, ◌||◌, if◌then◌else◌,
}
use tp_so20231c.Common.Int.{ℤ, pos, negsuc}
use tp_so20231c.Utils.Segments.{int_eq}
use tp_so20231c.Kernel.Sistema.{
  Sistema, Turno, espera, sigue, abrazo, cae, inicializar_planificador, push_pcb_estado,
  e_pop_primer_proceso, pop_blocked, estado_en_exit,
}
use tp_so20231c.Kernel.Recursos.{buscar_posicion_recurso, hay_elementos_wait}

-- A console's program is there: `nuevo_pcb_new` behind its reception.
unfoldable pub nuevo_pcb_new : Sistema → Sistema
unfolding push_pcb_estado
nuevo_pcb_new s = record s {
  next_pid = s.next_pid + 1;
  e_new = push_pcb_estado s.e_new s.next_pid;
  nuevos_pcbs_ready = s.nuevos_pcbs_ready + 1;
}

-- A turn of a planner passes its first semaphore, or, behind that, its second and moves a process.
unfoldable pub planificador_largo_plazo : Sistema → Turno
unfolding push_pcb_estado
planificador_largo_plazo s =
    if s.en_largo == 0
    then if s.nuevos_pcbs_ready == 0
      then espera
      else sigue (record s { nuevos_pcbs_ready = s.nuevos_pcbs_ready - 1; en_largo = 1 })
    else if s.grado_multiprogramacion == 0
    then espera
    else elim s.e_new [
      | [] ↦ cae
      | p ∷ lista ↦ sigue (record s {
        e_new = lista;
        e_ready = push_pcb_estado s.e_ready p;
        en_largo = 0;
        grado_multiprogramacion = s.grado_multiprogramacion - 1;
        sem_ready = s.sem_ready + 1;
      })
    ]

-- `elegido` is `list_get_maximum` by `mayor_hrrn`. With more than one process the chosen one is
-- not taken off the list.
unfoldable pub next_hrrn_proceso : (List ℕ → ℕ) → List ℕ → Option (ℕ × List ℕ)
next_hrrn_proceso elegido [] = none
next_hrrn_proceso elegido (p ∷ []) = some (p, [])
next_hrrn_proceso elegido (p ∷ q ∷ lista) = some (elegido (p ∷ q ∷ lista), p ∷ q ∷ lista)

-- Another algorithm leaves the pointer unset.
unfoldable pub elegir_proceso : Text → (List ℕ → ℕ) → List ℕ → Option (ℕ × List ℕ)
unfolding e_pop_primer_proceso next_hrrn_proceso str_eq
elegir_proceso algoritmo elegido lista =
    if str_eq algoritmo (codes "FIFO")
    then e_pop_primer_proceso lista
    else if str_eq algoritmo (codes "HRRN")
    then next_hrrn_proceso elegido lista
    else none

unfoldable pub planificador_corto_plazo : Text → (List ℕ → ℕ) → Sistema → Turno
unfolding elegir_proceso push_pcb_estado
planificador_corto_plazo algoritmo elegido s =
    if s.en_corto == 0
    then if s.sem_ready == 0
      then espera
      else sigue (record s { sem_ready = s.sem_ready - 1; en_corto = 1 })
    else if s.execute_libre == 0
    then espera
    else elim (elegir_proceso algoritmo elegido s.e_ready) [
      | none ↦ cae
      | some r ↦ sigue (record s {
        e_ready = r.1;
        e_execute = push_pcb_estado s.e_execute (r.0);
        en_corto = 0;
        execute_libre = s.execute_libre - 1;
        sem_execute = s.sem_execute + 1;
      })
    ]

-- `execute_pcb` up to the CPU's answer.
unfoldable pub execute_pcb : Sistema → Turno
unfolding e_pop_primer_proceso
execute_pcb s = elim s.corriendo [
  | some _ ↦ espera
  | none ↦ elim s.en_io [
    | some _ ↦ espera
    | none ↦ if s.sem_execute == 0 then espera else elim (e_pop_primer_proceso s.e_execute) [
      | none ↦ cae
      | some r ↦
          sigue
            (record s { e_execute = r.1; sem_execute = s.sem_execute - 1; corriendo = some (r.0) })
    ]
  ]
]

-- The cases of its `switch`, for the process `pcb` that it holds.
unfoldable pub caso_yield : Sistema → ℕ → Turno
unfolding push_pcb_estado
caso_yield s pcb = sigue (record s {
  e_ready = push_pcb_estado s.e_ready pcb;
  sem_ready = s.sem_ready + 1;
  execute_libre = s.execute_libre + 1;
  corriendo = none;
})

-- I_EXIT and SEG_FAULT. What stands behind the call is not reached.
unfoldable pub caso_exit : Sistema → ℕ → Turno
unfolding estado_en_exit
caso_exit s pcb = estado_en_exit s pcb

-- `instruccion_en_IO` up to its wait: the process is blocked, and the thread waits at `io` for the
-- end of the sleep, while others take their turns.
unfoldable pub caso_io : Sistema → ℕ → Turno
unfolding push_pcb_estado
caso_io s pcb =
    sigue
      (record s { e_blocked = push_pcb_estado s.e_blocked pcb; en_io = some pcb; corriendo = none })

-- The sleep has ended (`sleepHilo` posts `io`): the rest of `instruccion_en_IO` and of its case.
unfoldable pub despertar_io : Sistema → Turno
unfolding push_pcb_estado pop_blocked
despertar_io s = elim s.en_io [
  | none ↦ espera
  | some pcb ↦ elim (pop_blocked s.e_blocked pcb) [
    | none ↦ cae
    | some lista ↦ sigue (record s {
      e_blocked = lista;
      e_ready = push_pcb_estado s.e_ready pcb;
      sem_ready = s.sem_ready + 1;
      execute_libre = s.execute_libre + 1;
      en_io = none;
    })
  ]
]

-- I_TRUNCATE, behind the request to the filesystem.
unfoldable pub caso_truncate : Sistema → ℕ → Turno
unfolding push_pcb_estado
caso_truncate s pcb = sigue (record s {
  en_fs = s.en_fs ++ pcb ∷ [];
  e_blocked = push_pcb_estado s.e_blocked pcb;
  envio_bloqueo_fs = s.envio_bloqueo_fs + 1;
  execute_libre = s.execute_libre + 1;
  corriendo = none;
})

-- I_READ and I_WRITE, with the request to the filesystem (`f_read_write`). The semaphores of the
-- readers and of the access are taken and given back within the turn.
unfoldable pub caso_read_write : Sistema → ℕ → Turno
unfolding push_pcb_estado
caso_read_write s pcb = sigue (record s {
  en_fs = s.en_fs ++ pcb ∷ [];
  e_blocked = push_pcb_estado s.e_blocked pcb;
  envio_bloqueo_fs = s.envio_bloqueo_fs + 1;
  execute_libre = s.execute_libre + 1;
  corriendo = none;
})

-- The thread that the filesystem's answers wake. The reception and the wait behind it are one turn:
-- the semaphore is posted by the turn that sends the request.
unfoldable pub unblocked_pcb_after_fs : Sistema → Turno
unfolding push_pcb_estado pop_blocked
unblocked_pcb_after_fs s = elim s.en_fs [
  | [] ↦ espera
  | pid ∷ resto ↦ if s.envio_bloqueo_fs == 0 then espera else elim (pop_blocked s.e_blocked pid) [
    | none ↦ cae
    | some lista ↦ sigue (record s {
      en_fs = resto;
      envio_bloqueo_fs = s.envio_bloqueo_fs - 1;
      e_blocked = lista;
      e_ready = push_pcb_estado s.e_ready pid;
      sem_ready = s.sem_ready + 1;
    })
  ]
]

-- The process goes on executing.
abbrev pub vuelve : Sistema → ℕ → Sistema
vuelve s pcb = record s {
  e_execute = push_pcb_estado s.e_execute pcb;
  sem_execute = s.sem_execute + 1;
  corriendo = none;
}

-- I_SEEK, behind the change of the position.
unfoldable pub caso_seek : Sistema → ℕ → Turno
unfolding push_pcb_estado
caso_seek s pcb = sigue (vuelve s pcb)

-- Without an instance the process is put into a queue at index -1.
unfoldable pub caso_wait : List Text → Text → Sistema → ℕ → Turno
unfolding buscar_posicion_recurso hay_elementos_wait push_pcb_estado estado_en_exit
caso_wait recursos recurso s pcb = elim (buscar_posicion_recurso recursos recurso) [
  | negsuc _ ↦ estado_en_exit s pcb
  | pos p ↦ elim (hay_elementos_wait s.instancias p) [
    | none ↦ cae
    | some r ↦ elim (r.0) [
      | negsuc _ ↦ cae
      | pos _ ↦ sigue (vuelve (record s { instancias = r.1 }) pcb)
    ]
  ]
]

-- `basura` is what `resultadoWait` holds, which this case reads without having set it. The instances
-- become 1 (`=+ 1`), so that no process is ever let go; the process is put back twice.
unfoldable pub caso_signal : ℤ → List Text → Text → Sistema → ℕ → Turno
unfolding buscar_posicion_recurso push_pcb_estado estado_en_exit int_eq
caso_signal basura recursos recurso s pcb =
    if int_eq basura (negsuc 0)
    then estado_en_exit s pcb
    else elim (buscar_posicion_recurso recursos recurso) [
      | negsuc _ ↦ cae
      | pos p ↦
          if ltb p (length s.instancias)
          then sigue (
              vuelve
                (record s {
                  instancias = set s.instancias p (pos 1);
                  e_execute = push_pcb_estado s.e_execute pcb;
                })
                pcb)
          else cae
    ]

-- One turn of one thread, in any order.
module _ (algoritmo : Text) (elegido : List ℕ → ℕ) (basura : ℤ) (recursos : List Text) where
  pub data Paso : Sistema → Sistema → Type 0 where
    nuevo : (s : Sistema) → Paso s (nuevo_pcb_new s)
    largo : (s s' : Sistema) → planificador_largo_plazo s ≡ sigue s' → Paso s s'
    corto : (s s' : Sistema) → planificador_corto_plazo algoritmo elegido s ≡ sigue s' → Paso s s'
    toma : (s s' : Sistema) → execute_pcb s ≡ sigue s' → Paso s s'
    yield : (s s' : Sistema) (p : ℕ) → s.corriendo ≡ some p → caso_yield s p ≡ sigue s' → Paso s s'
    io : (s s' : Sistema) (p : ℕ) → s.corriendo ≡ some p → caso_io s p ≡ sigue s' → Paso s s'
    duerme : (s s' : Sistema) → despertar_io s ≡ sigue s' → Paso s s'
    truncate :
        (s s' : Sistema) (p : ℕ) → s.corriendo ≡ some p → caso_truncate s p ≡ sigue s' → Paso s s'
    read_write :
        (s s' : Sistema) (p : ℕ) → s.corriendo ≡ some p → caso_read_write s p ≡ sigue s' → Paso s s'
    seek : (s s' : Sistema) (p : ℕ) → s.corriendo ≡ some p → caso_seek s p ≡ sigue s' → Paso s s'
    unblocked : (s s' : Sistema) → unblocked_pcb_after_fs s ≡ sigue s' → Paso s s'
    wait :
        (s s' : Sistema) (p : ℕ) (r : Text)
        → s.corriendo ≡ some p
        → caso_wait recursos r s p ≡ sigue s'
        → Paso s s'
    signal :
        (s s' : Sistema) (p : ℕ) (r : Text)
        → s.corriendo ≡ some p
        → caso_signal basura recursos r s p ≡ sigue s'
        → Paso s s'

  -- What a kernel that starts with the given multiprogramming and instances comes to.
  pub data Alcanza (lugar grado : ℕ) (instancias : List ℤ) : Sistema → Type 0 where
    empieza :
        (s : Sistema)
        → inicializar_planificador lugar grado instancias ≡ sigue s
        → Alcanza lugar grado instancias s
    avanza :
        (s s' : Sistema)
        → Alcanza lugar grado instancias s
        → Paso s s'
        → Alcanza lugar grado instancias s'
