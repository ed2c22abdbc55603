-- ===== src/Cpu/Decode.antt =====
-- cpu.c, `decode`: one instruction. What the CPU sends is a list of messages; what the memory
-- answers to a read is an argument. `usleep` and the log have no effect on the state.
pub mod Leyes
pub mod Direcciones
pub mod Efecto
use tp_so20231c.Common.{
  ℕ, ◌+◌, ◌%◌, ◌^◌, List, [], ◌∷◌, ◌++◌, Option, none, some, Bool, true, false, not, ◌||◌, Outcome,
  ok, exit, fault, bind, Text, ◌==◌, if◌then◌else◌,
}
use tp_so20231c.Common.Int.{ℤ, pos, negsuc, ◌+ℤ◌, ltb_ℤ}
use tp_so20231c.Utils.Tipo
use tp_so20231c.Utils.Flag
use tp_so20231c.Utils.Types.{CpuResponse, Instruccion, TablaSegmento}
use tp_so20231c.Utils.Segments.{int_eq}
use tp_so20231c.Cpu.Registros.{
  escribir_valor_en_registro, encontrar_valor_registro, encontrar_tamanio_registro,
}
use tp_so20231c.Cpu.Enteros.{atoi, suma_int, div_int, mod_int}

pub data Mensaje : Type 0 where
  -- I_READ to the memory: address, size, pid
  leer : ℤ → ℤ → ℤ → Mensaje
  -- I_WRITE to the memory: address, size, pid, value
  escribir : ℤ → ℤ → ℤ → Text → Mensaje
  -- header_respuesta_cpu with the packed context
  contexto : CpuResponse → Mensaje
  -- header_respuesta_cpu with the first eight bytes of the structure, after a SEG_FAULT
  crudo : CpuResponse → Mensaje

-- What an instruction comes to: the context, and the messages in the order they are sent.
abbrev pub Paso : Type 0
Paso = Outcome (CpuResponse × List Mensaje)

unfoldable pub no_manda_contexto : Instruccion → Bool
no_manda_contexto i =
    (i.nombre == Tipo.mov_out) || ((i.nombre == Tipo.mov_in) || (i.nombre == Tipo.set))

unfoldable pub instruccion_no_desaloja : Instruccion → Bool
instruccion_no_desaloja i =
    if (i.nombre == Tipo.io) || ((i.nombre == Tipo.yield) || (i.nombre == Tipo.exit))
    then false
    else true

unfoldable pub hay_que_mandar_contexto : Instruccion → Bool
hay_que_mandar_contexto i =
    if (i.nombre == Tipo.set) || ((i.nombre == Tipo.mov_in) || (i.nombre == Tipo.mov_out))
    then false
    else true

-- The last row with the number. With none, the block of eight bytes that `malloc` returned stands
-- in its place, and its fields lie outside of it.
unfoldable pub encontrar_segmento_desde :
    Option TablaSegmento → List TablaSegmento → ℤ → Option TablaSegmento
unfolding int_eq
encontrar_segmento_desde hallado [] num = hallado
encontrar_segmento_desde hallado (t ∷ tabla) num =
    encontrar_segmento_desde (if int_eq t.id num then some t else hallado) tabla num

unfoldable pub encontrar_segmento : List TablaSegmento → ℤ → Option TablaSegmento
unfolding encontrar_segmento_desde
encontrar_segmento tabla num = encontrar_segmento_desde none tabla num

abbrev pub desreferenciar {ℓ} : {A : Type ℓ} → Option A → Outcome A
desreferenciar none = fault
desreferenciar (some a) = ok a

-- A logical address: its row of the segment table, and the offset in the segment.
unfoldable pub traducir : Text → List TablaSegmento → Option Text → Outcome (TablaSegmento × ℤ)
unfolding atoi div_int mod_int encontrar_segmento
traducir tam_max tabla direccion = bind (desreferenciar direccion) (λ d.
    bind (div_int (atoi d) (atoi tam_max)) (λ num.
      bind (mod_int (atoi d) (atoi tam_max))
        (λ despl. bind (desreferenciar (encontrar_segmento tabla num)) (λ seg. ok (seg, despl)))))

-- The branch of MOV_IN and MOV_OUT for an offset past the limit.
unfoldable pub seg_fault : CpuResponse → Paso
seg_fault info = let info' = record info { flag = Flag.seg_fault } in ok (info', crudo info' ∷ [])

unfoldable pub caso_set : CpuResponse → Instruccion → Paso
unfolding escribir_valor_en_registro
caso_set info i = bind (desreferenciar i.parametro1) (λ registro.
    bind (desreferenciar i.parametro2) (λ valor.
      bind (escribir_valor_en_registro valor registro info.registros)
        (λ regs. ok (record info { registros = regs }, []))))

-- `memoria` is what the memory answers to a read of an address, size and pid.
unfoldable pub caso_mov_in : (ℤ → ℤ → ℤ → Outcome Text) → Text → CpuResponse → Instruccion → Paso
unfolding traducir seg_fault escribir_valor_en_registro encontrar_tamanio_registro
caso_mov_in memoria tam_max info i = bind (traducir tam_max info.tabla_segmentos i.parametro2) (λ t.
    if not (ltb_ℤ t.0.limite t.1)
    then bind (desreferenciar i.parametro1) (λ registro.
      let size = pos (encontrar_tamanio_registro registro) in
      let fisica = t.0.base +ℤ t.1 in
      bind (memoria fisica size info.pid) (λ valor.
        bind (escribir_valor_en_registro valor registro info.registros)
          (λ regs. ok (record info { registros = regs }, leer fisica size info.pid ∷ []))))
    else seg_fault info)

unfoldable pub caso_mov_out : Text → CpuResponse → Instruccion → Paso
unfolding traducir seg_fault encontrar_valor_registro encontrar_tamanio_registro
caso_mov_out tam_max info i = bind (traducir tam_max info.tabla_segmentos i.parametro1) (λ t.
    if not (ltb_ℤ t.0.limite t.1)
    then bind (desreferenciar i.parametro2) (λ registro.
      let size = pos (encontrar_tamanio_registro registro) in
      let fisica = t.0.base +ℤ t.1 in
      bind (encontrar_valor_registro registro info.registros)
        (λ valor. ok (info, escribir fisica size info.pid valor ∷ [])))
    else seg_fault info)

-- F_READ and F_WRITE, which differ in the flag only.
unfoldable pub caso_f_read_write : ℕ → Text → CpuResponse → Instruccion → Paso
unfolding traducir atoi suma_int
caso_f_read_write flag tam_max info i = bind (desreferenciar i.parametro1) (λ archivo.
    bind (desreferenciar i.parametro3) (λ tercero.
      let size = atoi tercero in
      bind (traducir tam_max info.tabla_segmentos i.parametro2) (λ t.
        let info' = record info { flag = flag; archivo = archivo; size_segmento = size } in
        if not (ltb_ℤ t.0.limite (suma_int t.1 size))
        then ok (record info' { direccion_fisica = t.0.base +ℤ t.1 }, [])
        else ok (record info' { flag = Flag.seg_fault }, []))))

-- F_TRUNCATE and F_SEEK: both put the number into `sizeSegmento`.
unfoldable pub caso_archivo_numero : ℕ → CpuResponse → Instruccion → Paso
unfolding atoi
caso_archivo_numero flag info i = bind (desreferenciar i.parametro1) (λ archivo.
    bind (desreferenciar i.parametro2)
      (λ n. ok (record info { flag = flag; archivo = archivo; size_segmento = atoi n }, [])))

unfoldable pub caso_create_segment : CpuResponse → Instruccion → Paso
unfolding atoi
caso_create_segment info i = bind (desreferenciar i.parametro1) (λ id.
    bind (desreferenciar i.parametro2) (λ n. ok (
      record info { flag = Flag.i_create_segment; id_segmento = atoi id; size_segmento = atoi n },
      [],
    )))

unfoldable pub caso_io : CpuResponse → Instruccion → Paso
unfolding atoi
caso_io info i =
    bind (desreferenciar i.parametro1)
      (λ t. ok (record info { flag = Flag.i_io; tiempo = atoi t }, []))

-- WAIT and SIGNAL.
unfoldable pub caso_recurso : ℕ → CpuResponse → Instruccion → Paso
caso_recurso flag info i =
    bind (desreferenciar i.parametro1) (λ r. ok (record info { flag = flag; recurso = r }, []))

-- F_OPEN and F_CLOSE.
unfoldable pub caso_archivo : ℕ → CpuResponse → Instruccion → Paso
caso_archivo flag info i =
    bind (desreferenciar i.parametro1) (λ a. ok (record info { flag = flag; archivo = a }, []))

unfoldable pub caso_delete_segment : CpuResponse → Instruccion → Paso
unfolding atoi
caso_delete_segment info i =
    bind (desreferenciar i.parametro1)
      (λ id. ok (record info { flag = Flag.i_delete_segment; id_segmento = atoi id }, []))

-- The `switch`.
unfoldable pub ejecutar : (ℤ → ℤ → ℤ → Outcome Text) → Text → CpuResponse → Instruccion → Paso
unfolding caso_set caso_mov_in caso_mov_out caso_f_read_write caso_archivo_numero
    caso_create_segment caso_io caso_recurso caso_archivo caso_delete_segment
ejecutar memoria tam_max info i =
    if i.nombre == Tipo.set
    then caso_set info i
    else if i.nombre == Tipo.mov_in
    then caso_mov_in memoria tam_max info i
    else if i.nombre == Tipo.mov_out
    then caso_mov_out tam_max info i
    else if i.nombre == Tipo.f_read
    then caso_f_read_write Flag.i_read tam_max info i
    else if i.nombre == Tipo.f_write
    then caso_f_read_write Flag.i_write tam_max info i
    else if i.nombre == Tipo.f_truncate
    then caso_archivo_numero Flag.i_truncate info i
    else if i.nombre == Tipo.f_seek
    then caso_archivo_numero Flag.i_seek info i
    else if i.nombre == Tipo.create_segment
    then caso_create_segment info i
    else if i.nombre == Tipo.io
    then caso_io info i
    else if i.nombre == Tipo.wait
    then caso_recurso Flag.i_wait info i
    else if i.nombre == Tipo.signal
    then caso_recurso Flag.i_signal info i
    else if i.nombre == Tipo.f_open
    then caso_archivo Flag.i_open info i
    else if i.nombre == Tipo.f_close
    then caso_archivo Flag.i_close info i
    else if i.nombre == Tipo.delete_segment
    then caso_delete_segment info i
    else if i.nombre == Tipo.exit
    then ok (record info { flag = Flag.i_exit }, [])
    else if i.nombre == Tipo.yield
    then ok (record info { flag = Flag.i_yield }, [])
    else exit

-- Behind the `switch`: the program counter moves on, and the context is sent if it has to be.
unfoldable pub decode : (ℤ → ℤ → ℤ → Outcome Text) → Text → CpuResponse → Instruccion → Paso
unfolding ejecutar hay_que_mandar_contexto
decode memoria tam_max info i = bind (ejecutar memoria tam_max info i) (λ r.
    let info' = record (r.0) { pc = (r.0.pc + 1) % 2 ^ 32 } in
    if hay_que_mandar_contexto i then ok (info', r.1 ++ contexto info' ∷ []) else ok (info', r.1))
