-- ===== src/Kernel/Sistema.antt =====
-- estado.c and planificador.c: the queues of the states and the semaphores. A queue is the list of
-- the pids of its processes, which stand for the pointers.
use tp_so20231c.Common.{
  ℕ, ◌+◌, List, [], ◌∷◌, ◌++◌, Option, none, some, Bool, true, false, ◌==◌, if◌then◌else◌, ltb,
}
use tp_so20231c.Common.Int.{ℤ}

-- `corriendo` is the process that `execute_pcb` holds between taking it and the end of its turn.
-- `en_largo` and `en_corto` are 1 where the planner has passed the first of its two semaphores, and 0
-- where it has not; `en_io` is the process whose sleep `execute_pcb` waits for, at the semaphore `io`.
-- `en_fs` are the pids that the filesystem was sent and has not sent back; it answers in order.
pub record Sistema : Type 0 where
  pub next_pid : ℕ
  pub e_new : List ℕ
  pub e_ready : List ℕ
  pub e_execute : List ℕ
  pub e_blocked : List ℕ
  pub e_exit : List ℕ
  pub corriendo : Option ℕ
  pub en_io : Option ℕ
  pub en_largo : ℕ
  pub en_corto : ℕ
  pub nuevos_pcbs_ready : ℕ
  pub grado_multiprogramacion : ℕ
  pub sem_ready : ℕ
  pub sem_execute : ℕ
  pub sem_exit : ℕ
  pub execute_libre : ℕ
  pub instancias : List ℤ
  pub en_fs : List ℕ
  pub envio_bloqueo_fs : ℕ

-- What a turn of a thread comes to: it waits at a semaphore, ends, locks a mutex that it holds
-- already, or follows a NULL pointer or an index out of an array. Turns do not overlap, also where
-- the source takes no mutex (`pop_blocked`).
pub data Turno : Type 0 where
  espera : Turno
  sigue : Sistema → Turno
  abrazo : Turno
  cae : Turno

-- The semaphores and the empty queues of `inicializar_planificador`.
unfoldable pub crear_estados : ℕ → List ℤ → Sistema
crear_estados grado instancias = record {
  next_pid = 1;
  e_new = [];
  e_ready = [];
  e_execute = [];
  e_blocked = [];
  e_exit = [];
  corriendo = none;
  en_io = none;
  en_largo = 0;
  en_corto = 0;
  nuevos_pcbs_ready = 0;
  grado_multiprogramacion = grado;
  sem_ready = 0;
  sem_execute = 0;
  sem_exit = 0;
  execute_libre = 1;
  instancias = instancias;
  en_fs = [];
  envio_bloqueo_fs = 0;
}

-- `sizeof` a pointer, 8, queues are stored into `arrayRecursos`, which has 5 places; `lugar` is how
-- many pointers can be written from its beginning on.
unfoldable pub inicializar_planificador : ℕ → ℕ → List ℤ → Turno
unfolding crear_estados
inicializar_planificador lugar grado instancias =
    if ltb lugar 8 then cae else sigue (crear_estados grado instancias)

unfoldable pub push_pcb_estado : List ℕ → ℕ → List ℕ
push_pcb_estado lista pcb = lista ++ pcb ∷ []

-- NULL for an empty list.
unfoldable pub e_pop_primer_proceso : List ℕ → Option (ℕ × List ℕ)
e_pop_primer_proceso [] = none
e_pop_primer_proceso (p ∷ lista) = some (p, lista)

-- `list_find` and `list_remove_by_condition`: the first with the pid; NULL is followed.
unfoldable pub pop_blocked : List ℕ → ℕ → Option (List ℕ)
pop_blocked [] pid = none
pop_blocked (p ∷ lista) pid =
    let resto = pop_blocked lista pid in
    if p == pid then some lista else elim resto [ none ↦ none | some l ↦ some (p ∷ l) ]

-- A piece of a turn under a mutex of the default kind, which its holder cannot lock again.
abbrev con_mutex : Bool → Turno → Turno
con_mutex tomado t = if tomado then abrazo else t

-- `estadoEnExit` holds the mutex of the state when `push_pcb_estado` locks it.
unfoldable pub estado_en_exit : Sistema → ℕ → Turno
unfolding push_pcb_estado
estado_en_exit s pcb = con_mutex false (
    con_mutex true (
      sigue (record s {
        e_exit = push_pcb_estado s.e_exit pcb;
        sem_exit = s.sem_exit + 1;
        corriendo = none;
      })))
