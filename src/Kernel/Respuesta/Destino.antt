-- ===== src/Kernel/Respuesta/Destino.antt =====
-- From an instruction that the CPU carries out to the queue that its process ends in.
use tp_so20231c.Common.{
  ℕ, ◌≡◌, ◌≢◌, refl, List, [], ◌∷◌, ◌++◌, ◌||◌, ◌==◌, arith, none, some, true, Outcome, ok, Text,
  if◌then◌else◌, ◌⊎◌, inl, inr, ltb, length, Cumple,
}
use tp_so20231c.Common.Int.{ℤ, negsuc}
use tp_so20231c.Utils.Tipo
use tp_so20231c.Utils.Flag
use tp_so20231c.Utils.Types.{CpuResponse, Instruccion}
use tp_so20231c.Cpu.Decode.{Mensaje, hay_que_mandar_contexto, decode}
use tp_so20231c.Cpu.Decode.Efecto.{decode_lem}
use tp_so20231c.Cpu.Decode.Leyes.Efectos.{banderas}
use tp_so20231c.Utils.Segments.{int_eq}
use tp_so20231c.Kernel.Recursos.{buscar_posicion_recurso, hay_elementos_wait}
use tp_so20231c.Kernel.Sistema.{Sistema, Turno, sigue, abrazo, push_pcb_estado, estado_en_exit}
use tp_so20231c.Kernel.Planificador.{
  caso_yield, caso_exit, caso_io, caso_wait, caso_signal, caso_seek, caso_truncate, caso_read_write,
  Paso, yield, io, wait, signal, seek, truncate, read_write,
}
use tp_so20231c.Kernel.Planificador.Turnos.{
  Bien, abrazo-Bien, cae-Bien, sigue-Bien, if-Bien, opcion-Bien, entero-Bien, Bien-con,
}
use tp_so20231c.Kernel.Respuesta.Banderas.{Pares, en_tabla, alguna_es, decode-conocida}
use tp_so20231c.Kernel.Respuesta.{Respuesta, turno, otro_programa, ninguna, atender_respuesta}

-- The queue that an instruction takes its process to.
abbrev pub destino : ℕ → Sistema → List ℕ
destino n s =
    if n == Tipo.yield
    then s.e_ready
    else if (n == Tipo.wait) || ((n == Tipo.signal) || (n == Tipo.f_seek))
    then s.e_execute
    else s.e_blocked

-- The instructions that the kernel asks another program for.
abbrev pub Ajena : ℕ → ℕ → Type 0
Ajena n f =
    ((n ≡ Tipo.create_segment) × (f ≡ Flag.i_create_segment))
    ⊎ ((n ≡ Tipo.delete_segment) × (f ≡ Flag.i_delete_segment))
    ⊎ ((n ≡ Tipo.f_open) × (f ≡ Flag.i_open))
    ⊎ ((n ≡ Tipo.f_close) × (f ≡ Flag.i_close))

abbrev pub AlFinal : ℕ → List ℕ → Type 0
AlFinal p cola = (l : List ℕ) × (cola ≡ l ++ p ∷ [])

-- The process is let go, at the end of the queue; at I/O the thread waits for its end.
abbrev pub Queda : Sistema → ℕ → ℕ → Sistema → Type 0
Queda s p n s' =
    AlFinal p (destino n s')
    × (s'.corriendo ≡ none)
    × (s'.en_io ≡ (if n == Tipo.io then some p else s.en_io))

-- What an answer to instruction n comes to for process p.
abbrev pub Atendida : Text → (List ℕ → ℕ) → ℤ → List Text → Sistema → ℕ → ℕ → Respuesta → Type 0
Atendida algoritmo elegido basura recursos s p n (turno t) =
    Bien Unit (λ s'. Paso algoritmo elegido basura recursos s s' × Queda s p n s') t
    × ((n ≢ Tipo.exit) ⊎ (t ≡ abrazo))
Atendida algoritmo elegido basura recursos s p n (otro_programa f) = Ajena n f
Atendida algoritmo elegido basura recursos s p n ninguna = ⊥

module _ (basura : ℤ) (recursos : List Text) (s : Sistema) (p : ℕ) where
  yield-Queda : Bien Unit (Queda s p Tipo.yield) (caso_yield s p)
  unfolding caso_yield push_pcb_estado
  yield-Queda = sigue-Bien _ _ _ ((s.e_ready, refl), refl, refl)

  seek-Queda : Bien Unit (Queda s p Tipo.f_seek) (caso_seek s p)
  unfolding caso_seek push_pcb_estado
  seek-Queda = sigue-Bien _ _ _ ((s.e_execute, refl), refl, refl)

  truncate-Queda : Bien Unit (Queda s p Tipo.f_truncate) (caso_truncate s p)
  unfolding caso_truncate push_pcb_estado
  truncate-Queda = sigue-Bien _ _ _ ((s.e_blocked, refl), refl, refl)

  read-Queda : Bien Unit (Queda s p Tipo.f_read) (caso_read_write s p)
  unfolding caso_read_write push_pcb_estado
  read-Queda = sigue-Bien _ _ _ ((s.e_blocked, refl), refl, refl)

  write-Queda : Bien Unit (Queda s p Tipo.f_write) (caso_read_write s p)
  unfolding caso_read_write push_pcb_estado
  write-Queda = sigue-Bien _ _ _ ((s.e_blocked, refl), refl, refl)

  io-Queda : Bien Unit (Queda s p Tipo.io) (caso_io s p)
  unfolding caso_io push_pcb_estado
  io-Queda = sigue-Bien _ _ _ ((s.e_blocked, refl), refl, refl)

  wait-Queda : (r : Text) → Bien Unit (Queda s p Tipo.wait) (caso_wait recursos r s p)
  unfolding caso_wait estado_en_exit push_pcb_estado
  wait-Queda r =
      entero-Bien _ _ (buscar_posicion_recurso recursos r) _ _
        (λ k _.
          opcion-Bien _ _ (hay_elementos_wait s.instancias k) _ _ (λ _. cae-Bien _ _ tt)
            (λ x _.
              entero-Bien _ _ (x.0) _ _ (λ _ _. sigue-Bien _ _ _ ((s.e_execute, refl), refl, refl))
                (λ _. cae-Bien _ _ tt)))
        (λ _. abrazo-Bien _ _)

  signal-Queda : (r : Text) → Bien Unit (Queda s p Tipo.signal) (caso_signal basura recursos r s p)
  unfolding caso_signal estado_en_exit push_pcb_estado
  signal-Queda r =
      if-Bien _ _ (int_eq basura (negsuc 0)) _ _ (λ _. abrazo-Bien _ _)
        (λ _.
          entero-Bien _ _ (buscar_posicion_recurso recursos r) _ _
            (λ k _.
              if-Bien _ _ (ltb k (length s.instancias)) _ _
                (λ _. sigue-Bien _ _ _ ((s.e_execute ++ p ∷ [], refl), refl, refl))
                (λ _. cae-Bien _ _ tt))
            (λ _. cae-Bien _ _ tt))

module _ (algoritmo : Text) (elegido : List ℕ → ℕ) (basura : ℤ) (recursos : List Text) (s : Sistema)
    (p : ℕ) where
  -- The answer to an instruction, whatever else the context holds.
  abbrev BienAtendida : ℕ → ℕ → Type 0
  BienAtendida n f =
      (r : CpuResponse)
      → r.flag ≡ f
      → Atendida algoritmo elegido basura recursos s p n (atender_respuesta basura recursos s p r)

  con_turno :
      (n : ℕ) (t : Turno)
      → n ≢ Tipo.exit
      → ((s' : Sistema) → t ≡ sigue s' → Paso algoritmo elegido basura recursos s s')
      → Bien Unit (Queda s p n) t
      → Atendida algoritmo elegido basura recursos s p n (turno t)
  con_turno n t x c b =
      (Bien-con Unit (Paso algoritmo elegido basura recursos s) (Queda s p n) t c b, inl x)

  muere : (n : ℕ) → Atendida algoritmo elegido basura recursos s p n (turno (caso_exit s p))
  unfolding caso_exit estado_en_exit
  muere n = (abrazo-Bien _ _, inr refl)

  tabla : s.corriendo ≡ some p → Pares BienAtendida banderas
  unfolding atender_respuesta
  tabla o = (
    λ r e. rw e (
        con_turno Tipo.f_read _ (omega arith) (λ s'. read_write s s' p o)
          (read-Queda basura recursos s p)),
    (
      λ r e. rw e (
          con_turno Tipo.f_write _ (omega arith) (λ s'. read_write s s' p o)
            (write-Queda basura recursos s p)),
      (
        λ r e. rw e (
            con_turno Tipo.f_truncate _ (omega arith) (λ s'. truncate s s' p o)
              (truncate-Queda basura recursos s p)),
        (
          λ r e. rw e (
              con_turno Tipo.f_seek _ (omega arith) (λ s'. seek s s' p o)
                (seek-Queda basura recursos s p)),
          (
            λ r e. rw e (inl (refl, refl)),
            (
              λ r e. rw e (inr (inl (refl, refl))),
              (
                λ r e. rw e (
                    con_turno Tipo.io _ (omega arith) (λ s'. io s s' p o)
                      (io-Queda basura recursos s p)),
                (
                  λ r e. rw e (
                      con_turno Tipo.wait _ (omega arith) (λ s'. wait s s' p r.recurso o)
                        (wait-Queda basura recursos s p r.recurso)),
                  (
                    λ r e. rw e (
                        con_turno Tipo.signal _ (omega arith) (λ s'. signal s s' p r.recurso o)
                          (signal-Queda basura recursos s p r.recurso)),
                    (
                      λ r e. rw e (inr (inr (inl (refl, refl)))),
                      (
                        λ r e. rw e (inr (inr (inr (refl, refl)))),
                        (
                          λ r e. rw e (muere Tipo.exit),
                          (
                            λ r e. rw e (
                                con_turno Tipo.yield _ (omega arith) (λ s'. yield s s' p o)
                                  (yield-Queda basura recursos s p)),
                            tt,
                          ),
                        ),
                      ),
                    ),
                  ),
                ),
              ),
            ),
          ),
        ),
      ),
    ),
  )

  falla :
      (n : ℕ) (r : CpuResponse)
      → r.flag ≡ Flag.seg_fault
      → Atendida algoritmo elegido basura recursos s p n (atender_respuesta basura recursos s p r)
  unfolding atender_respuesta
  falla n r e = rw e (muere n)

  -- The CPU carries out an instruction after which it sends the context, and the kernel that executes
  -- the process p reads that context. Its `switch` has a case for it. For CREATE_SEGMENT,
  -- DELETE_SEGMENT, F_OPEN and F_CLOSE it is the case of that name. Any other case, where the kernel
  -- goes on, is a step of the kernel that lets go of p and puts it at the end of one queue: of READY
  -- for YIELD, of EXECUTE for WAIT, SIGNAL and F_SEEK, of BLOCKED for I/O, F_READ, F_WRITE and
  -- F_TRUNCATE; and for I/O, and only then, the thread goes on to wait for the end of p's. At EXIT the kernel does not go on: it locks a mutex that it holds.
  pub respuesta_lem :
      (memoria : ℤ → ℤ → ℤ → Outcome Text) (tam : Text) (info info' : CpuResponse) (i : Instruccion)
      (ms : List Mensaje)
      → decode memoria tam info i ≡ ok (info', ms)
      → hay_que_mandar_contexto i ≡ true
      → s.corriendo ≡ some p
      → Atendida algoritmo elegido basura recursos s p i.nombre
          (atender_respuesta basura recursos s p info')
  unfolding Cumple
  respuesta_lem memoria tam info info' i ms h m o =
      elim (decode_lem memoria tam info info' i ms h).4 [
        | inl e ↦ elim (en_tabla BienAtendida banderas i.nombre info.flag (tabla o)) [
          | inl q ↦ q info' e
          | inr f ↦ elim (alguna_es i (decode-conocida memoria tam info i (info', ms) h) m f) [ ]
        ]
        | inr e ↦ falla i.nombre info' (e.0)
      ]
