-- ===== src/Consola.antt =====
-- consola/src/parsear.c and console.c: the console reads its pseudocode, packs one instruction
-- after the other, and sends the whole to the kernel. The file is the list of the words that
-- `fscanf("%s")` yields. `usable n` are
-- the bytes that may be written of what `malloc(n)` returns: the words and the instruction itself
-- are written into blocks of 8, 20 and 4 bytes.
pub mod Envio
use tp_so20231c.Common.{
  ℕ, zero, suc, List, [], ◌∷◌, Option, none, some, Bool, true, false, Text, codes, str_eq,
  if◌then◌else◌, Outcome, ok, exit, fault, ◌==◌, length, ltb, not, ◌&&◌,
}
use tp_so20231c.Common.Int.{ℤ, pos, negsuc}
use tp_so20231c.Utils.Tipo
use tp_so20231c.Utils.Types.{Instruccion}
use tp_so20231c.Utils.Buffer.{Buffer}
use tp_so20231c.Utils.Saludo
use tp_so20231c.Utils.Header
use tp_so20231c.Utils.Frames.{Stream, stream_send_buffer, stream_send_empty_buffer, recibir_saludo}
use tp_so20231c.Utils.Instructions.{empaquetar_instruccion}

-- The branches of the ladder of `strcmp`s, by what they read and set.
pub data Caso : Type 0 where
  tres dos uno : ℕ → Caso
  seek yield salida otro : Caso

unfoldable pub caso_de : Text → Caso
unfolding str_eq
caso_de t =
    if str_eq t (codes "F_READ")
    then tres Tipo.f_read
    else if str_eq t (codes "F_WRITE")
    then tres Tipo.f_write
    else if str_eq t (codes "SET")
    then dos Tipo.set
    else if str_eq t (codes "MOV_IN")
    then dos Tipo.mov_in
    else if str_eq t (codes "MOV_OUT")
    then dos Tipo.mov_out
    else if str_eq t (codes "F_TRUNCATE")
    then dos Tipo.f_truncate
    else if str_eq t (codes "F_SEEK")
    then seek
    else if str_eq t (codes "CREATE_SEGMENT")
    then dos Tipo.create_segment
    else if str_eq t (codes "I/O")
    then uno Tipo.io
    else if str_eq t (codes "WAIT")
    then uno Tipo.wait
    else if str_eq t (codes "SIGNAL")
    then uno Tipo.signal
    else if str_eq t (codes "F_OPEN")
    then uno Tipo.f_open
    else if str_eq t (codes "F_CLOSE")
    then uno Tipo.f_close
    else if str_eq t (codes "DELETE_SEGMENT")
    then uno Tipo.delete_segment
    else if str_eq t (codes "EXIT")
    then salida
    else if str_eq t (codes "YIELD")
    then yield
    else otro

-- The variables of the loop. `instruc->parametroN` is NULL or points to `opcharN`, whose text a
-- later line overwrites: a flag says which. Of the blocks' sizes see `en_bloques`.
pub record Lector : Type 0 where
  pub nombre : ℕ
  pub con1 : Bool
  pub con2 : Bool
  pub con3 : Bool
  pub opchar1 : Text
  pub opchar2 : Text
  pub opchar3 : Text

-- Words that are there go into the blocks in order; at the end of the file `fscanf` returns EOF,
-- which counts as true, and leaves the rest of the blocks alone.
unfoldable pub leer_uno : List Text → Lector → Lector × List Text
leer_uno [] r = (r, [])
leer_uno (a ∷ ws) r = (record r { opchar1 = a }, ws)

unfoldable pub leer_dos : List Text → Lector → Lector × List Text
leer_dos [] r = (r, [])
leer_dos (a ∷ []) r = (record r { opchar1 = a }, [])
leer_dos (a ∷ b ∷ ws) r = (record r { opchar1 = a; opchar2 = b }, ws)

unfoldable pub leer_tres : List Text → Lector → Lector × List Text
leer_tres [] r = (r, [])
leer_tres (a ∷ []) r = (record r { opchar1 = a }, [])
leer_tres (a ∷ b ∷ []) r = (record r { opchar1 = a; opchar2 = b }, [])
leer_tres (a ∷ b ∷ c ∷ ws) r = (record r { opchar1 = a; opchar2 = b; opchar3 = c }, ws)

-- The body of a branch. F_SEEK leaves `parametro3` as it was; an unknown word changes nothing.
unfoldable pub rama : Caso → List Text → Lector → Lector × List Text
unfolding leer_uno leer_dos leer_tres
rama (tres n) ws r =
    let (r', ws') = leer_tres ws r in
    (record r' { nombre = n; con1 = true; con2 = true; con3 = true }, ws')
rama (dos n) ws r =
    let (r', ws') = leer_dos ws r in
    (record r' { nombre = n; con1 = true; con2 = true; con3 = false }, ws')
rama seek ws r =
    let (r', ws') = leer_dos ws r in
    (record r' { nombre = Tipo.f_seek; con1 = true; con2 = true }, ws')
rama (uno n) ws r =
    let (r', ws') = leer_uno ws r in
    (record r' { nombre = n; con1 = true; con2 = false; con3 = false }, ws')
rama yield ws r = (record r { nombre = Tipo.yield; con1 = false; con2 = false; con3 = false }, ws)
rama salida ws r = (record r { nombre = Tipo.exit; con1 = false; con2 = false; con3 = false }, ws)
rama otro ws r = (r, ws)

abbrev pub puntero : Bool → Text → Option Text
puntero con s = if con then some s else none

unfoldable pub instruc : Lector → Instruccion
instruc r = record {
  nombre = r.nombre;
  parametro1 = puntero r.con1 r.opchar1;
  parametro2 = puntero r.con2 r.opchar2;
  parametro3 = puntero r.con3 r.opchar3;
}

-- How many operands a branch reads, and up to which byte it writes (or `empaquetar_instruccion`
-- then reads) the 32-byte `instrucciones`: an unknown word leaves it alone.
unfoldable pub operandos : Caso → ℕ
operandos (tres n) = 3
operandos (dos n) = 2
operandos seek = 2
operandos (uno n) = 1
operandos yield = 0
operandos salida = 0
operandos otro = 0

unfoldable pub escribe : Caso → ℕ
escribe seek = 24
escribe otro = 4
escribe _ = 32

unfoldable pub entran : ℕ → ℕ → List Text → Bool
entran zero bytes ws = true
entran (suc k) bytes [] = true
entran (suc k) bytes (w ∷ ws) = let resto = entran k bytes ws in ltb (length w) bytes && resto

-- Whether a turn stays within its blocks: `instruccion` of `malloc(8)`, the operands' of
-- `malloc(20)`, `instruc` of `malloc(sizeof(instruccion))`, which is 4. A text is stored with a NUL.
unfoldable pub en_bloques : (ℕ → ℕ) → Caso → Text → List Text → Bool
unfolding operandos escribe entran
en_bloques usable c w ws =
    ltb (length w) (usable 8)
    && (entran (operandos c) (usable 20) ws && not (ltb (usable 4) (escribe c)))

-- What becomes of the loop: it ends at an EXIT with a buffer; past the end of the file it packs
-- the last instruction for ever; it writes past one of its blocks, after which nothing is told; or
-- the fuel was too little to tell.
pub data Parseo : Type 0 where
  listo : Buffer → Parseo
  sin_fin : Parseo
  fuera_de_bloque : Parseo
  sin_combustible : Parseo

abbrev pub es_salida : Caso → Bool
es_salida salida = true
es_salida _ = false

unfoldable pub parsear_pseudocodigo : (ℕ → ℕ) → ℕ → List Text → Lector → Buffer → Parseo
unfolding rama instruc caso_de empaquetar_instruccion en_bloques
parsear_pseudocodigo usable zero ws r buffer = sin_combustible
parsear_pseudocodigo usable (suc fuel) [] r buffer = sin_fin
parsear_pseudocodigo usable (suc fuel) (w ∷ ws) r buffer =
    let (r', ws') = rama (caso_de w) ws r in
    let b = empaquetar_instruccion (instruc r') buffer in
    let resto = parsear_pseudocodigo usable fuel ws' r' b in
    if en_bloques usable (caso_de w) w ws
    then if es_salida (caso_de w) then listo b else resto
    else fuera_de_bloque

-- The stream to the kernel, where the reader comes to an end.
unfoldable pub send_instruccion_consola_kernel :
    (ℕ → ℕ) → ℕ → List Text → Lector → Stream → Option Stream
unfolding parsear_pseudocodigo stream_send_buffer
send_instruccion_consola_kernel usable fuel ws r to =
    elim (parsear_pseudocodigo usable fuel ws r []) [
      | listo buffer_send ↦ some (stream_send_buffer to Header.lista_instrucciones buffer_send)
      | sin_fin ↦ none
      | fuera_de_bloque ↦ none
      | sin_combustible ↦ none
    ]

-- `main` up to the kernel's answer, and from there to the wait for the result: another answer than
-- `hs_aux` ends it with -1.
unfoldable pub saludar_kernel : Stream → Stream
unfolding stream_send_empty_buffer
saludar_kernel to = stream_send_empty_buffer to Saludo.hs_consola

unfoldable pub tras_saludo :
    (ℕ → ℕ) → ℕ → List Text → Lector → Stream → Stream → Option (Outcome (ℤ × Stream × Stream))
unfolding recibir_saludo send_instruccion_consola_kernel
tras_saludo usable fuel ws r from to = elim (recibir_saludo from) [
  | ok (kernel_response, from') ↦
      if kernel_response == Saludo.hs_aux
      then elim (send_instruccion_consola_kernel usable fuel ws r to) [
        | none ↦ none
        | some to' ↦ some (ok (pos 0, from', to'))
      ]
      else some (ok (negsuc 0, from', to))
  | exit ↦ some exit
  | fault ↦ some fault
]
