-- ===== src/Tests/Cpu.antt =====
-- cpu.c: a small process carried out.
use tp_so20231c.Common.{
  ℕ, ◌+◌, ◌≤◌, ◌<◌, ◌≡◌, ◌≢◌, ◌↔◌, refl, [], ◌∷◌, ◌++◌, none, some, Outcome, ok, fault, Text, codes,
  arith, ◌⊎◌, inl, length, get_elem?, replicate, sym, ◌∙◌,
}
use mathlib.Core.List.{Memᴰ}
use mathlib.Core.List.Memᴰ.{head, tail}
use tp_so20231c.Common.Int.{ℤ, pos, ◌+ℤ◌}
use tp_so20231c.Utils.Tipo
use tp_so20231c.Utils.Flag
use tp_so20231c.Utils.Types.{Instruccion, TablaSegmento, CpuResponse}
use tp_so20231c.Cpu.Registros.{
  Registros, donde_escribir, donde_leer, encontrar_tamanio_registro, escribir_valor_en_registro,
}
use tp_so20231c.Cpu.Registros.Leyes.{tabla_de_registros, escribir_registro_lem, escribir_de_mas}
use tp_so20231c.Cpu.Enteros.{atoi}
use tp_so20231c.Cpu.Decode.{Mensaje, escribir, contexto, decode, traducir}
use tp_so20231c.Cpu.Decode.Efecto.{Efecto, decode_lem, decode_archivo}
use tp_so20231c.Cpu.Decode.Direcciones.{IdsUnicos, Ubica, traducir_lem}
use tp_so20231c.Cpu.Rafaga.{sin_fin, fin, rafaga}
use tp_so20231c.Cpu.Rafaga.Fin.{rafaga_termina}
use tp_so20231c.Cpu.Rafaga.Turnos.{Cuenta, rafaga_contextos}

abbrev ax : Text
ax = codes "AX"

abbrev hola : Text
hola = codes "HOLA"

abbrev ceros : Registros
ceros = replicate 112 0

tabla_de_registros_example :
    (donde_leer (codes "RBX") ≡ some 64)
    × (encontrar_tamanio_registro (codes "RBX") ≡ 16)
    × (64 + 16 ≤ 112)
unfolding donde_escribir
tabla_de_registros_example = tabla_de_registros (codes "RBX") 64 16 refl

escribir_registro_example :
    (regs' : Registros) × (escribir_valor_en_registro hola (codes "EAX") ceros ≡ ok regs')
    × ((i : ℕ) → i < length hola → get_elem? regs' (16 + i) ≡ get_elem? hola i)
    × ((i : ℕ) → length hola ≤ i → i < 8 → get_elem? regs' (16 + i) ≡ some b'0')
    × ((i : ℕ) → (i < 16) ⊎ (16 + 8 ≤ i) → get_elem? regs' i ≡ get_elem? ceros i)
unfolding donde_escribir
escribir_registro_example =
    escribir_registro_lem hola (codes "EAX") 16 8 ceros refl refl (omega arith)

escribir_de_mas_example :
    ((0 + length (codes "HOLAS") ≤ 112)
      × (regs' : Registros) × (escribir_valor_en_registro (codes "HOLAS") ax ceros ≡ ok regs')
      × ((i : ℕ)
          → i < length (codes "HOLAS")
          → get_elem? regs' (0 + i) ≡ get_elem? (codes "HOLAS") i))
    ⊎ ((112 < 0 + length (codes "HOLAS"))
        × (escribir_valor_en_registro (codes "HOLAS") ax ceros ≡ fault))
unfolding donde_escribir
escribir_de_mas_example = escribir_de_mas (codes "HOLAS") ax 0 4 ceros refl refl (omega arith)

abbrev fila : TablaSegmento
fila = record { id = pos 1; pid = pos 7; id_seg_pcb = pos 0; limite = pos 64; base = pos 200 }

fila_sola : IdsUnicos (fila ∷ [])
fila_sola t u m n e = igual t m ∙ sym (igual u n)
  where
    igual : (x : TablaSegmento) → Memᴰ x (fila ∷ []) → x ≡ fila
    igual x (head k) = k
    igual x (tail k) = elim k [ ]

abbrev tam : Text
tam = codes "128"

abbrev direccion : Text
direccion = codes "133"

traducir_example :
    (traducir tam (fila ∷ []) (some direccion) ≡ ok (fila, pos 5))
    ↔ (Memᴰ fila (fila ∷ []) × (fila.id ≡ pos 1) × (pos 5 ≡ pos 5))
unfolding atoi
traducir_example = traducir_lem tam direccion (fila ∷ []) 133 127 fila (pos 5) refl refl fila_sola

abbrev mov_out : Instruccion
mov_out = record {
  nombre = Tipo.mov_out;
  parametro1 = some direccion;
  parametro2 = some ax;
  parametro3 = none;
}

abbrev f_read : Instruccion
f_read = record {
  nombre = Tipo.f_read;
  parametro1 = some hola;
  parametro2 = some direccion;
  parametro3 = some (codes "9");
}

abbrev salir : Instruccion
salir = record { nombre = Tipo.exit; parametro1 = none; parametro2 = none; parametro3 = none }

abbrev proceso : CpuResponse
proceso = record {
  pid = pos 7;
  flag = 0;
  registros = hola ++ ceros;
  pc = 0;
  archivo = [];
  tiempo = pos 0;
  recurso = [];
  size_segmento = pos 0;
  id_segmento = pos 0;
  lista_instrucciones = mov_out ∷ f_read ∷ salir ∷ [];
  tabla_segmentos = fila ∷ [];
  posicion_puntero = pos 0;
  direccion_fisica = pos 0;
}

abbrev memoria : ℤ → ℤ → ℤ → Outcome Text
memoria fisica size pid = ok []

abbrev mensaje : Mensaje
mensaje = escribir (pos 205) (pos 4) (pos 7) hola

decode_example : Efecto tam proceso mov_out (record proceso { pc = 1 }, mensaje ∷ [])
unfolding decode ◌+ℤ◌
decode_example =
    decode_lem memoria tam proceso (record proceso { pc = 1 }) mov_out (mensaje ∷ []) refl

abbrev leido : CpuResponse
leido = record proceso {
  pc = 2;
  flag = Flag.i_read;
  archivo = hola;
  size_segmento = pos 9;
  direccion_fisica = pos 205;
}

decode_archivo_example : Ubica Flag.i_read tam (record proceso { pc = 1 }) f_read leido
unfolding decode ◌+ℤ◌
decode_archivo_example =
    decode_archivo memoria tam (record proceso { pc = 1 }) leido f_read (contexto leido ∷ [])
      Flag.i_read (inl (refl, refl)) refl

rafaga_termina_example : rafaga memoria tam 8 (leido ∷ []) proceso ≢ ok sin_fin
rafaga_termina_example =
    rafaga_termina memoria tam 8 (leido ∷ []) proceso (omega arith) (omega arith, tt) (omega arith)

abbrev salido : CpuResponse
salido = record leido { pc = 3; flag = Flag.i_exit }

rafaga_contextos_example :
    Cuenta 0 (leido ∷ []) (fin salido (mensaje ∷ contexto leido ∷ contexto salido ∷ []) [])
unfolding rafaga ◌+ℤ◌
rafaga_contextos_example =
    rafaga_contextos memoria tam 8 (leido ∷ []) proceso
      (fin salido (mensaje ∷ contexto leido ∷ contexto salido ∷ []) []) refl
