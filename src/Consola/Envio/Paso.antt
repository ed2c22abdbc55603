-- ===== src/Consola/Envio/Paso.antt =====
-- One line of the pseudocode on its way: packed by the console, read by the kernel.
use tp_so20231c.Common.{
  ℕ, suc, ◌^◌, ◌<◌, ◌≡◌, refl, ap, ◌∙◌, List, [], ◌∷◌, ◌++◌, append_assoc, append-nil, arith, false,
  Text, codes, ◌==◌, ◌≤◌, length, length-append, true,
}
use tp_so20231c.Utils.Tipo
use tp_so20231c.Utils.Buffer.{Buffer, pack_u32, u32_bytes, buffer_pack_string}
use tp_so20231c.Utils.Buffer.Decodes.{Decodes, bind-Decodes, bind_pure-Decodes}
use tp_so20231c.Utils.Buffer.Laws.{
  unpack_u32-Decodes, text_bytes, buffer_pack_string-append, pack_u32-append, length-text_bytes,
  length-u32_bytes,
}
use tp_so20231c.Utils.Instructions.{
  Parametros, armar_instruccion, cuantos_parametros, desempaquetar_parametros,
}
use tp_so20231c.Utils.Instructions.RoundTrip.{
  visible, cero-Decodes, uno-Decodes, dos-Decodes, tres-Decodes,
}
use tp_so20231c.Utils.Instructions.Obtener.{leer_instruccion, parametros_del_caso}
use tp_so20231c.Consola.{
  tres, dos, uno, seek, yield, caso_de, Lector, rama, instruc, listo, parsear_pseudocodigo,
  en_bloques, operandos, escribe, entran, salida,
}
use tp_so20231c.Consola.Envio.Lineas.{
  Linea, l_tres, l_dos, l_seek, l_uno, l_yield, palabras, significado, IsLinea, deja, Tiene,
  tres-Tiene, dos-Tiene, uno-Tiene, CabeLinea, peso_linea,
}

-- The turn's blocks are large enough for it.
cabe_tres :
    (usable : ℕ → ℕ) (n : ℕ) (w a b c : Text) (ws : List Text)
    → 32 ≤ usable 4
    → length w < usable 8
    → length a < usable 20
    → length b < usable 20
    → length c < usable 20
    → en_bloques usable (tres n) w (a ∷ b ∷ c ∷ ws) ≡ true
unfolding en_bloques operandos escribe entran
cabe_tres usable n w a b c ws u h i j k = ground arith

cabe_dos :
    (usable : ℕ → ℕ) (n : ℕ) (w a b : Text) (ws : List Text)
    → 32 ≤ usable 4
    → length w < usable 8
    → length a < usable 20
    → length b < usable 20
    → en_bloques usable (dos n) w (a ∷ b ∷ ws) ≡ true
unfolding en_bloques operandos escribe entran
cabe_dos usable n w a b ws u h i j = ground arith

cabe_seek :
    (usable : ℕ → ℕ) (w a b : Text) (ws : List Text)
    → 32 ≤ usable 4
    → length w < usable 8
    → length a < usable 20
    → length b < usable 20
    → en_bloques usable seek w (a ∷ b ∷ ws) ≡ true
unfolding en_bloques operandos escribe entran
cabe_seek usable w a b ws u h i j = ground arith

cabe_uno :
    (usable : ℕ → ℕ) (n : ℕ) (w a : Text) (ws : List Text)
    → 32 ≤ usable 4
    → length w < usable 8
    → length a < usable 20
    → en_bloques usable (uno n) w (a ∷ ws) ≡ true
unfolding en_bloques operandos escribe entran
cabe_uno usable n w a ws u h i = ground arith

cabe_yield :
    (usable : ℕ → ℕ) (w : Text) (ws : List Text)
    → 32 ≤ usable 4
    → length w < usable 8
    → en_bloques usable yield w ws ≡ true
unfolding en_bloques operandos escribe entran
cabe_yield usable w ws u h = ground arith

-- A turn of the console's loop at a line, and of the kernel's loop at its bytes.
pub record Paso (usable : ℕ → ℕ) (l : Linea) (r : Lector) (ps : Parametros) : Type 0 where
  pub bytes : List ℕ
  pub lector : Lector
  pub nombre : ℕ
  pub leidos : Parametros
  pub empaca :
      (fuel : ℕ) (ws : List Text) (buf : Buffer)
      → parsear_pseudocodigo usable (suc fuel) (palabras l ++ ws) r buf
        ≡ parsear_pseudocodigo usable fuel ws lector (buf ++ bytes)
  pub lee : Decodes (leer_instruccion ps) bytes (nombre, leidos)
  pub sigue : (nombre == Tipo.exit) ≡ false
  pub visto : visible (armar_instruccion nombre leidos) ≡ significado l
  pub queda : lector.con3 ≡ deja l
  pub pesa : length bytes ≡ peso_linea l

-- The kernel's half: a name with as many texts as its case reads.
lee-Decodes :
    (k n : ℕ) (ps leidos : Parametros) (bytes : List ℕ)
    → parametros_del_caso n ≡ k
    → n < 2 ^ 32
    → Decodes (desempaquetar_parametros k ps) bytes leidos
    → Decodes (leer_instruccion ps) (u32_bytes n ++ bytes) (n, leidos)
unfolding leer_instruccion
lee-Decodes k n ps leidos bytes e h d =
    bind-Decodes _ (unpack_u32-Decodes n h) (bind_pure-Decodes _ (rw e d) refl)

-- The console's half.
empaca-uno :
    (n : ℕ) (a : Text) (buf : Buffer)
    → buffer_pack_string (pack_u32 buf n) a ≡ buf ++ (u32_bytes n ++ text_bytes a)
empaca-uno n a buf =
    buffer_pack_string-append _ a
    ∙ rw (pack_u32-append buf n) (append_assoc buf (u32_bytes n) (text_bytes a))

empaca-dos :
    (n : ℕ) (a b : Text) (buf : Buffer)
    → buffer_pack_string (buffer_pack_string (pack_u32 buf n) a) b
      ≡ buf ++ (u32_bytes n ++ (text_bytes a ++ text_bytes b))
empaca-dos n a b buf = buffer_pack_string-append _ b ∙ rw (empaca-uno n a buf) (simp append_assoc)

empaca-tres :
    (n : ℕ) (a b c : Text) (buf : Buffer)
    → buffer_pack_string (buffer_pack_string (buffer_pack_string (pack_u32 buf n) a) b) c
      ≡ buf ++ (u32_bytes n ++ (text_bytes a ++ (text_bytes b ++ text_bytes c)))
empaca-tres n a b c buf =
    buffer_pack_string-append _ c ∙ rw (empaca-dos n a b buf) (simp append_assoc)

pub Paso_lem :
    (usable : ℕ → ℕ) (l : Linea) (r : Lector) (ps : Parametros)
    → 32 ≤ usable 4
    → CabeLinea usable l
    → IsLinea r.con3 l
    → Paso usable l r ps
unfolding parsear_pseudocodigo rama instruc armar_instruccion cuantos_parametros parametros_del_caso
Paso_lem usable (l_tres w n a b c) r ps u k h =
    let t : Tiene 3 n = tres-Tiene w n h.0 in
    record {
      bytes = u32_bytes n ++ (text_bytes a ++ (text_bytes b ++ text_bytes c));
      lector = (rama (tres n) (a ∷ b ∷ c ∷ []) r).0;
      nombre = n;
      leidos = (a, b, c);
      empaca = λ fuel ws buf.
          rw (h.0, cabe_tres usable n w a b c ws u k.0 k.1 k.2 k.3)
            (ap (parsear_pseudocodigo usable fuel ws _) (empaca-tres n a b c buf));
      lee = lee-Decodes 3 n ps _ _ t.0 t.3 (tres-Decodes a b c ps h.1 h.2 h.3);
      sigue = t.2;
      visto = rw t.1;
      queda = refl;
      pesa = simp (length-append, length-text_bytes, length-u32_bytes) refl;
    }
Paso_lem usable (l_dos w n a b) r ps u k h =
    let t : Tiene 2 n = dos-Tiene w n h.0 in
    record {
      bytes = u32_bytes n ++ (text_bytes a ++ text_bytes b);
      lector = (rama (dos n) (a ∷ b ∷ []) r).0;
      nombre = n;
      leidos = (a, b, ps.2);
      empaca = λ fuel ws buf.
          rw (h.0, cabe_dos usable n w a b ws u k.0 k.1 k.2)
            (ap (parsear_pseudocodigo usable fuel ws _) (empaca-dos n a b buf));
      lee = lee-Decodes 2 n ps _ _ t.0 t.3 (dos-Decodes a b ps h.1 h.2);
      sigue = t.2;
      visto = rw t.1;
      queda = refl;
      pesa = simp (length-append, length-text_bytes, length-u32_bytes) refl;
    }
Paso_lem usable (l_seek w a b) r ps u k h = record {
  bytes = u32_bytes Tipo.f_seek ++ (text_bytes a ++ text_bytes b);
  lector = (rama seek (a ∷ b ∷ []) r).0;
  nombre = Tipo.f_seek;
  leidos = (a, b, ps.2);
  empaca = λ fuel ws buf.
      rw (h.0, h.3, cabe_seek usable w a b ws u k.0 k.1 k.2)
        (ap (parsear_pseudocodigo usable fuel ws _) (empaca-dos Tipo.f_seek a b buf));
  lee = lee-Decodes 2 Tipo.f_seek ps _ _ refl (omega arith) (dos-Decodes a b ps h.1 h.2);
  sigue = refl;
  visto = refl;
  queda = h.3;
  pesa = simp (length-append, length-text_bytes, length-u32_bytes) refl;
}
Paso_lem usable (l_uno w n a) r ps u k h =
    let t : Tiene 1 n = uno-Tiene w n h.0 in
    record {
      bytes = u32_bytes n ++ text_bytes a;
      lector = (rama (uno n) (a ∷ []) r).0;
      nombre = n;
      leidos = (a, ps.1, ps.2);
      empaca = λ fuel ws buf.
          rw (h.0, cabe_uno usable n w a ws u k.0 k.1)
            (ap (parsear_pseudocodigo usable fuel ws _) (empaca-uno n a buf));
      lee = lee-Decodes 1 n ps _ _ t.0 t.3 (uno-Decodes a ps h.1);
      sigue = t.2;
      visto = rw t.1;
      queda = refl;
      pesa = simp (length-append, length-text_bytes, length-u32_bytes) refl;
    }
Paso_lem usable (l_yield w) r ps u k h = record {
  bytes = u32_bytes Tipo.yield;
  lector = (rama yield [] r).0;
  nombre = Tipo.yield;
  leidos = ps;
  empaca = λ fuel ws buf.
      rw (h, cabe_yield usable w ws u k)
        (ap (parsear_pseudocodigo usable fuel ws _) (pack_u32-append buf Tipo.yield));
  lee = rw append-nil at (lee-Decodes 0 Tipo.yield ps ps [] refl (omega arith) (cero-Decodes ps));
  sigue = refl;
  visto = refl;
  queda = refl;
  pesa = simp (length-append, length-text_bytes, length-u32_bytes) refl;
}

cabe_salida :
    (usable : ℕ → ℕ) (ws : List Text)
    → 32 ≤ usable 4
    → 4 < usable 8
    → en_bloques usable salida (codes "EXIT") ws ≡ true
unfolding en_bloques operandos escribe entran
cabe_salida usable ws u h = ground arith

-- The turn at an EXIT ends the console's loop.
pub termina :
    (usable : ℕ → ℕ) (fuel : ℕ) (cola : List Text) (r : Lector) (buf : Buffer)
    → 32 ≤ usable 4
    → 4 < usable 8
    → parsear_pseudocodigo usable (suc fuel) (codes "EXIT" ∷ cola) r buf
      ≡ listo (buf ++ u32_bytes Tipo.exit)
unfolding parsear_pseudocodigo caso_de
termina usable fuel cola r buf u h =
    rw (cabe_salida usable cola u h) (ap listo (pack_u32-append buf Tipo.exit))

pub termina-Decodes :
    (ps : Parametros) → Decodes (leer_instruccion ps) (u32_bytes Tipo.exit) (Tipo.exit, ps)
unfolding parametros_del_caso
termina-Decodes ps =
    rw append-nil at (lee-Decodes 0 Tipo.exit ps ps [] refl (omega arith) (cero-Decodes ps))
