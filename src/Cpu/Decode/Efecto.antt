-- ===== src/Cpu/Decode/Efecto.antt =====
-- What a call of `decode` does to the context and to the other programs.
use tp_so20231c.Common.{
  ℕ, ◌+◌, ◌%◌, ◌^◌, ◌≡◌, inl, inr, ◌⊎◌, List, [], ◌∷◌, ◌++◌, append-nil, Bool, Outcome, ok, Text,
  if◌then◌else◌, Cumple, ok-Cumple, bind-Cumple, if-Cumple, ap, ◌∙◌, sym,
}
use tp_so20231c.Common.Int.{ℤ}
use tp_so20231c.Utils.Tipo
use tp_so20231c.Utils.Flag
use tp_so20231c.Utils.Types.{CpuResponse, Instruccion}
use tp_so20231c.Cpu.Decode.{Mensaje, contexto, hay_que_mandar_contexto, ejecutar, decode}
use tp_so20231c.Cpu.Decode.Leyes.{ejecutar-Hecho}
use tp_so20231c.Cpu.Decode.Leyes.Efectos.{Bandera, Envia}
use tp_so20231c.Cpu.Decode.Direcciones.{Ubica, caso_f_read_write-Ubica}

-- What is sent last.
abbrev pub aviso : Instruccion → CpuResponse → List Mensaje
aviso i info' = if hay_que_mandar_contexto i then contexto info' ∷ [] else []

abbrev pub Efecto : Text → CpuResponse → Instruccion → CpuResponse × List Mensaje → Type 0
Efecto tam info i r =
    (r.0.pid ≡ info.pid)
    × (r.0.pc ≡ (info.pc + 1) % 2 ^ 32)
    × (r.0.lista_instrucciones ≡ info.lista_instrucciones)
    × (r.0.tabla_segmentos ≡ info.tabla_segmentos)
    × Bandera i.nombre info.flag (r.0.flag)
    × (propios : List Mensaje) × (r.1 ≡ propios ++ aviso i (r.0))
    × Envia tam info i.nombre propios

decode-Efecto :
    (memoria : ℤ → ℤ → ℤ → Outcome Text) (tam : Text) (info : CpuResponse) (i : Instruccion)
    → Cumple (Efecto tam info i) (decode memoria tam info i)
unfolding decode Cumple
decode-Efecto memoria tam info i = bind-Cumple _ (ejecutar memoria tam info i) _ λ r e.
    let h = ejecutar-Hecho memoria tam info i r e in
    let info' = record (r.0) { pc = (r.0.pc + 1) % 2 ^ 32 } in
    let dicho : Bool → List Mensaje = λ b. if b then contexto info' ∷ [] else [] in
    if-Cumple _ (hay_que_mandar_contexto i) _ _
      (λ c. ok-Cumple _ (
        h.0.0,
        ap (λ n. (n + 1) % 2 ^ 32) h.0.1,
        h.0.2,
        h.0.3,
        h.1,
        r.1,
        ap (λ b. r.1 ++ dicho b) (sym c),
        h.2,
      ))
      (λ c. ok-Cumple _ (
        h.0.0,
        ap (λ n. (n + 1) % 2 ^ 32) h.0.1,
        h.0.2,
        h.0.3,
        h.1,
        r.1,
        sym (append-nil (r.1)) ∙ ap (λ b. r.1 ++ dicho b) (sym c),
        h.2,
      ))

-- When an instruction is carried out, the process's number, list and segment table are as before
-- and the program counter is one further, modulo 2 ^ 32. The flag is the one of the instruction
-- (the old one for SET and the MOVs), or SEG_FAULT, and that only for the four instructions with an
-- address. Sent is at most one message of the instruction's own, for a MOV only: a read or a write
-- in the process's name at base + offset of a translated address, the offset being within the
-- limit, or the news of a SEG_FAULT; behind it the new context, exactly when the instruction is one
-- that sends it.
pub decode_lem :
    (memoria : ℤ → ℤ → ℤ → Outcome Text) (tam : Text) (info info' : CpuResponse) (i : Instruccion)
    (ms : List Mensaje)
    → decode memoria tam info i ≡ ok (info', ms)
    → Efecto tam info i (info', ms)
unfolding Cumple
decode_lem memoria tam info info' i ms h = decode-Efecto memoria tam info i (info', ms) h

lectura-Ubica :
    (memoria : ℤ → ℤ → ℤ → Outcome Text) (tam : Text) (info : CpuResponse) (i : Instruccion)
    → i.nombre ≡ Tipo.f_read
    → Cumple (λ r. Ubica Flag.i_read tam info i (r.0)) (ejecutar memoria tam info i)
unfolding ejecutar
lectura-Ubica memoria tam info i e = rw e (caso_f_read_write-Ubica Flag.i_read tam info i)

escritura-Ubica :
    (memoria : ℤ → ℤ → ℤ → Outcome Text) (tam : Text) (info : CpuResponse) (i : Instruccion)
    → i.nombre ≡ Tipo.f_write
    → Cumple (λ r. Ubica Flag.i_write tam info i (r.0)) (ejecutar memoria tam info i)
unfolding ejecutar
escritura-Ubica memoria tam info i e = rw e (caso_f_read_write-Ubica Flag.i_write tam info i)

-- The program counter is no part of it.
decode-Ubica :
    (flag : ℕ) (memoria : ℤ → ℤ → ℤ → Outcome Text) (tam : Text) (info : CpuResponse)
    (i : Instruccion)
    → Cumple (λ r. Ubica flag tam info i (r.0)) (ejecutar memoria tam info i)
    → Cumple (λ r. Ubica flag tam info i (r.0)) (decode memoria tam info i)
unfolding decode Cumple
decode-Ubica flag memoria tam info i h = bind-Cumple _ (ejecutar memoria tam info i) _ λ r e.
    if-Cumple _ (hay_que_mandar_contexto i) _ _ (λ _. ok-Cumple _ (h r e))
      (λ _. ok-Cumple _ (h r e))

-- After F_READ or F_WRITE the context says SEG_FAULT, or it has the flag of the instruction, its file
-- and its size, the third operand; the physical address is base + offset of the translation of the
-- second operand, and the whole access, offset plus size, is within the limit of the segment, unless
-- that sum does not fit into an `int`: then what is left of it by 32 bits is within.
pub decode_archivo :
    (memoria : ℤ → ℤ → ℤ → Outcome Text) (tam : Text) (info info' : CpuResponse) (i : Instruccion)
    (ms : List Mensaje) (flag : ℕ)
    → ((i.nombre ≡ Tipo.f_read) × (flag ≡ Flag.i_read))
      ⊎ ((i.nombre ≡ Tipo.f_write) × (flag ≡ Flag.i_write))
    → decode memoria tam info i ≡ ok (info', ms)
    → Ubica flag tam info i info'
unfolding Cumple
decode_archivo memoria tam info info' i ms flag (inl (e, f)) h =
    rw f (
      decode-Ubica Flag.i_read memoria tam info i (lectura-Ubica memoria tam info i e) (info', ms)
        h)
decode_archivo memoria tam info info' i ms flag (inr (e, f)) h = rw f (
    decode-Ubica Flag.i_write memoria tam info i (escritura-Ubica memoria tam info i e) (info', ms)
      h)
