-- ===== src/Cpu/Decode/Leyes/Efectos.antt =====
-- What an instruction may do to the context and say to the other programs.
use tp_so20231c.Common.{
  ℕ, ◌≡◌, ◌⊎◌, List, [], ◌∷◌, Option, Bool, true, ◌||◌, ok, Text, ◌==◌, if◌then◌else◌,
}
use tp_so20231c.Common.Int.{ℤ, ◌+ℤ◌, ◌≤ℤ◌}
use tp_so20231c.Utils.Tipo
use tp_so20231c.Utils.Flag
use tp_so20231c.Utils.Types.{CpuResponse, TablaSegmento}
use tp_so20231c.Cpu.Decode.{Mensaje, leer, escribir, contexto, crudo, traducir}

-- The fields of the process that no instruction touches.
abbrev pub Conserva : CpuResponse → CpuResponse → Type 0
Conserva info info' =
    (info'.pid ≡ info.pid)
    × (info'.pc ≡ info.pc)
    × (info'.lista_instrucciones ≡ info.lista_instrucciones)
    × (info'.tabla_segmentos ≡ info.tabla_segmentos)

-- The address is the translation of a text, at an offset within the limit of its segment.
abbrev pub Traduce : Text → CpuResponse → ℤ → Type 0
Traduce tam info fisica =
    (direccion : Option Text) × (seg : TablaSegmento) × (despl : ℤ) × (traducir tam
        info.tabla_segmentos direccion
      ≡ ok (seg, despl))
    × (despl ≤ℤ seg.limite)
    × (fisica ≡ seg.base +ℤ despl)

-- A message to the memory is about the process and an address of its; one to the kernel tells it
-- of a segmentation fault.
abbrev pub Permitido : Text → CpuResponse → Mensaje → Type 0
Permitido tam info (leer fisica size pid) = (pid ≡ info.pid) × Traduce tam info fisica
Permitido tam info (escribir fisica size pid valor) = (pid ≡ info.pid) × Traduce tam info fisica
Permitido tam info (contexto c) = ⊥
Permitido tam info (crudo c) = c.flag ≡ Flag.seg_fault

abbrev pub es_mov : ℕ → Bool
es_mov n = (n == Tipo.mov_in) || (n == Tipo.mov_out)

abbrev pub accede : ℕ → Bool
accede n = es_mov n || ((n == Tipo.f_read) || (n == Tipo.f_write))

-- The flag that tells the kernel of an instruction.
abbrev pub banderas : List (ℕ × ℕ)
banderas =
    (Tipo.f_read, Flag.i_read)
    ∷ (Tipo.f_write, Flag.i_write)
    ∷ (Tipo.f_truncate, Flag.i_truncate)
    ∷ (Tipo.f_seek, Flag.i_seek)
    ∷ (Tipo.create_segment, Flag.i_create_segment)
    ∷ (Tipo.delete_segment, Flag.i_delete_segment)
    ∷ (Tipo.io, Flag.i_io)
    ∷ (Tipo.wait, Flag.i_wait)
    ∷ (Tipo.signal, Flag.i_signal)
    ∷ (Tipo.f_open, Flag.i_open)
    ∷ (Tipo.f_close, Flag.i_close)
    ∷ (Tipo.exit, Flag.i_exit)
    ∷ (Tipo.yield, Flag.i_yield)
    ∷ []

abbrev pub asignada : List (ℕ × ℕ) → ℕ → ℕ → ℕ
asignada [] n otra = otra
asignada (b ∷ bs) n otra = if n == b.0 then b.1 else asignada bs n otra

-- What instruction n may do to a context with flag `otra`, in terms of the two tables above.
abbrev pub Bandera : ℕ → ℕ → ℕ → Type 0
Bandera n otra flag =
    (flag ≡ asignada banderas n otra) ⊎ ((flag ≡ Flag.seg_fault) × (accede n ≡ true))

abbrev pub Envia : Text → CpuResponse → ℕ → List Mensaje → Type 0
Envia tam info n ms =
    (ms ≡ []) ⊎ ((es_mov n ≡ true) × (m : Mensaje) × (ms ≡ m ∷ []) × Permitido tam info m)

abbrev pub Hecho : Text → CpuResponse → ℕ → CpuResponse × List Mensaje → Type 0
Hecho tam info n r = Conserva info (r.0) × Bandera n info.flag (r.0.flag) × Envia tam info n (r.1)
