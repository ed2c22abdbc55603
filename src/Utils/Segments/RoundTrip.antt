-- ===== src/Utils/Segments/RoundTrip.antt =====
-- What is packed of a segment table is what is unpacked.
use tp_so20231c.Common.{
  ℕ, ◌≡◌, refl, sym, ap, ◌∙◌, List, [], ◌∷◌, ◌++◌, append_assoc, append-nil, ok, length,
  length-append, ◌≤◌, arith, ltb, fault, if◌then◌else◌,
}
use tp_so20231c.Common.Int.{ℤ}
use tp_so20231c.Utils.Types.{TablaSegmento}
use tp_so20231c.Utils.Buffer.{Buffer, buffer_pack, pack_u32, pack_int, u32_bytes}
use tp_so20231c.Utils.Buffer.Decodes.{
  Decodes, bind-Decodes, bind_last-Decodes, bind_pure-Decodes, pure-Decodes, lift-Decodes,
}
use tp_so20231c.Utils.Buffer.Laws.{IsInt, unpack_int-Decodes, pack_int-append, length-int_bytes}
use tp_so20231c.Utils.Segments.{
  int_en, empaquetar_segmento, empaquetar_lista_segmentos, desempaquetar_segmento,
  desempaquetar_lista_segmentos,
}

-- The five numbers are `int`s of the C program.
pub record IsRow (t : TablaSegmento) : Type 0 where
  pub id : IsInt t.id
  pub pid : IsInt t.pid
  pub id_seg_pcb : IsInt t.id_seg_pcb
  pub limite : IsInt t.limite
  pub base : IsInt t.base

abbrev pub AreRows : List TablaSegmento → Type 0
AreRows [] = Unit {0}
AreRows (t ∷ ts) = IsRow t × AreRows ts

-- A packed row: 20 bytes.
unfoldable pub row_bytes : TablaSegmento → List ℕ
row_bytes t = empaquetar_segmento [] t

pub empaquetar_segmento-append :
    (b : Buffer) (t : TablaSegmento) → empaquetar_segmento b t ≡ b ++ row_bytes t
unfolding empaquetar_segmento row_bytes pack_int pack_u32 buffer_pack u32_bytes
empaquetar_segmento-append b t = simp append_assoc

int_en-Decodes :
    (bytes hasta : ℕ) (n : ℤ)
    → hasta ≤ bytes
    → IsInt n
    → Decodes (int_en bytes hasta) (pack_int [] n) n
unfolding int_en pack_int u32_bytes
int_en-Decodes bytes hasta n h i =
    bind_last-Decodes _ (unpack_int-Decodes n i) (lift-Decodes _ (cabe bytes hasta n h))
  where
    cabe :
        (bytes hasta : ℕ) (n : ℤ) → hasta ≤ bytes → (if ltb bytes hasta then fault else ok n) ≡ ok n
    cabe bytes hasta n h = ground arith

-- The row that `empaquetar_segmento` packs is the row that `desempaquetar_segmento` returns, where
-- its block holds a row.
pub desempaquetar_segmento-Decodes :
    (usable : ℕ → ℕ) (t : TablaSegmento)
    → 20 ≤ usable 12
    → IsRow t
    → Decodes (desempaquetar_segmento usable) (empaquetar_segmento [] t) t
unfolding empaquetar_segmento desempaquetar_segmento pack_int pack_u32 buffer_pack u32_bytes
desempaquetar_segmento-Decodes usable t u r =
    bind-Decodes _ (int_en-Decodes _ 4 t.id (omega (arith, u)) r.id) (
      bind-Decodes _ (int_en-Decodes _ 12 t.id_seg_pcb (omega (arith, u)) r.id_seg_pcb) (
        bind-Decodes _ (int_en-Decodes _ 8 t.pid (omega (arith, u)) r.pid) (
          bind-Decodes _ (int_en-Decodes _ 20 t.base u r.base)
            (bind_pure-Decodes _ (int_en-Decodes _ 16 t.limite (omega (arith, u)) r.limite) refl))))

pub largo_fila : (t : TablaSegmento) → length (empaquetar_segmento [] t) ≡ 20
unfolding empaquetar_segmento
largo_fila t = simp (pack_int-append, length-append, length-int_bytes) refl

unfoldable pub table_bytes : List TablaSegmento → List ℕ
table_bytes [] = []
table_bytes (t ∷ ts) = row_bytes t ++ table_bytes ts

pub empaquetar_lista_segmentos-append :
    (b : Buffer) (ts : List TablaSegmento)
    → empaquetar_lista_segmentos b (length ts) ts ≡ ok (b ++ table_bytes ts)
unfolding empaquetar_lista_segmentos table_bytes
empaquetar_lista_segmentos-append b [] = ap ok (sym (append-nil b))
empaquetar_lista_segmentos-append b (t ∷ ts) =
    empaquetar_lista_segmentos-append (empaquetar_segmento b t) ts
    ∙ ap ok (rw (empaquetar_segmento-append b t) (append_assoc b (row_bytes t) (table_bytes ts)))

pub desempaquetar_lista_segmentos-Decodes :
    (usable : ℕ → ℕ) (ts : List TablaSegmento)
    → 20 ≤ usable 12
    → AreRows ts
    → Decodes (desempaquetar_lista_segmentos usable (length ts)) (table_bytes ts) ts
unfolding desempaquetar_lista_segmentos table_bytes row_bytes
desempaquetar_lista_segmentos-Decodes usable [] u rs = pure-Decodes []
desempaquetar_lista_segmentos-Decodes usable (t ∷ ts) u rs =
    bind-Decodes _ (desempaquetar_segmento-Decodes usable t u rs.0)
      (bind_pure-Decodes _ (desempaquetar_lista_segmentos-Decodes usable ts u rs.1) refl)
