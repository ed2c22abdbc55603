-- ===== src/Utils/Segments.antt =====
-- utils.c: a segment's row and a table of them, packed and unpacked, and the search for an id.
pub mod RoundTrip
use tp_so20231c.Common.{
  ℕ, zero, suc, List, [], ◌∷◌, ◌++◌, Option, none, some, Bool, Outcome, ok, exit, fault, bind, ◌==◌,
  false, true, arith, ◌≡◌, if◌then◌else◌, ltb,
}
use tp_so20231c.Common.Int.{ℤ, pos, negsuc}
use tp_so20231c.Utils.Types.{TablaSegmento}
use tp_so20231c.Utils.Buffer.{Buffer, Unpack, ◌>>=◌, pure, lift, pack_int, unpack_int}

-- a == b at two `int`s
unfoldable pub int_eq : ℤ → ℤ → Bool
int_eq (pos a) (pos b) = a == b
int_eq (negsuc a) (negsuc b) = a == b
int_eq (pos a) (negsuc b) = false
int_eq (negsuc a) (pos b) = false

-- `list_find`: the first row with the id, and NULL if there is none.
unfoldable pub find_segmento_con_id : List TablaSegmento → ℤ → Option TablaSegmento
unfolding int_eq
find_segmento_con_id [] id = none
find_segmento_con_id (t ∷ tabla) id =
    if int_eq id t.id then some t else find_segmento_con_id tabla id

unfoldable pub empaquetar_segmento : Buffer → TablaSegmento → Buffer
unfolding pack_int
empaquetar_segmento buffer seg =
    pack_int
      (pack_int (pack_int (pack_int (pack_int buffer seg.id) seg.id_seg_pcb) seg.pid) seg.base)
      seg.limite

-- `list_get` past the end returns NULL, whose fields are read.
unfoldable pub empaquetar_lista_segmentos : Buffer → ℕ → List TablaSegmento → Outcome Buffer
unfolding empaquetar_segmento
empaquetar_lista_segmentos buffer zero tabla = ok buffer
empaquetar_lista_segmentos buffer (suc longitud) [] = fault
empaquetar_lista_segmentos buffer (suc longitud) (elem ∷ tabla) =
    empaquetar_lista_segmentos (empaquetar_segmento buffer elem) longitud tabla

-- An `int` unpacked into a block of `bytes` bytes, up to its byte `hasta`.
unfoldable pub int_en : ℕ → ℕ → Unpack ℤ
unfolding unpack_int
int_en bytes hasta = do n ← unpack_int; lift (if ltb bytes hasta then fault else ok n)

-- The row takes 20 bytes (`sizeof(tabla_segmento)`) and is unpacked into a block of
-- `malloc(sizeof(segmento))`, 12 bytes. `usable n` are the bytes that may be written of what
-- `malloc(n)` returns.
unfoldable pub desempaquetar_segmento : (ℕ → ℕ) → Unpack TablaSegmento
unfolding int_en
desempaquetar_segmento usable = do
  id ← int_en (usable 12) 4
  id_seg_pcb ← int_en (usable 12) 12
  pid ← int_en (usable 12) 8
  base ← int_en (usable 12) 20
  limite ← int_en (usable 12) 16
  pure (record { id = id; pid = pid; id_seg_pcb = id_seg_pcb; limite = limite; base = base })

unfoldable pub desempaquetar_lista_segmentos : (ℕ → ℕ) → ℕ → Unpack (List TablaSegmento)
unfolding desempaquetar_segmento
desempaquetar_lista_segmentos usable zero = pure []
desempaquetar_lista_segmentos usable (suc longitud) = do
  aux ← desempaquetar_segmento usable
  resto ← desempaquetar_lista_segmentos usable longitud
  pure (aux ∷ resto)

pub int_eq_eq : (a b : ℤ) → int_eq a b ≡ true → a ≡ b
unfolding int_eq
int_eq_eq (pos a) (pos b) h = ground arith
int_eq_eq (negsuc a) (negsuc b) h = ground arith
int_eq_eq (pos a) (negsuc b) h = ground arith
int_eq_eq (negsuc a) (pos b) h = ground arith

pub eq_int_eq : (a b : ℤ) → a ≡ b → int_eq a b ≡ true
unfolding int_eq
eq_int_eq (pos a) (pos b) h = ground arith
eq_int_eq (negsuc a) (negsuc b) h = ground arith
eq_int_eq (pos a) (negsuc b) h = ground arith
eq_int_eq (negsuc a) (pos b) h = ground arith
