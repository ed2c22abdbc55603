-- ===== src/Memoria/Segmentos.antt =====
-- segmentacion.c: the choice of a free segment, the table of segments, creation and removal.
pub mod Validez
pub mod Borrado
pub mod Deshecho
use tp_so20231c.Common.{
  ℕ, zero, suc, ◌+◌, List, [], ◌∷◌, ◌++◌, Option, none, some, Bool, not, length, Outcome, ok, exit,
  fault, bind, ◌==◌, if◌then◌else◌,
}
use tp_so20231c.Common.Int.{ℤ, pos, negsuc, ltb_ℤ}
use tp_so20231c.Utils.Header
use tp_so20231c.Utils.Saludo
use tp_so20231c.Utils.Types.{TablaSegmento}
use tp_so20231c.Utils.Segments.{int_eq, find_segmento_con_id}
use tp_so20231c.Memoria.Bitarray.{Bitarray}
use tp_so20231c.Memoria.Espacios.{
  Hueco, vueltas, buscar_segmento_disponible, ocupar_bit_map, liberar_bit_map,
}

pub record Segmento : Type 0 where
  pub id : ℤ
  pub base : ℕ
  pub limite : ℤ

unfoldable pub pueden_guardar : List Hueco → ℤ → List Hueco
pueden_guardar [] size = []
pueden_guardar (h ∷ huecos) size =
    let resto = pueden_guardar huecos size in
    if not (ltb_ℤ (pos h.limite) size) then h ∷ resto else resto

-- What a condition that takes a row by value finds where it is handed the row's address, as the
-- lists of the library do: it reads 20 bytes of the stack.
abbrev pub PorValor : Type 0
PorValor = TablaSegmento → Outcome TablaSegmento

-- `tablaConPid` maps over the table and does not filter it.
unfoldable pub tabla_con_pid : PorValor → List TablaSegmento → ℤ → Outcome (List Bool)
unfolding int_eq
tabla_con_pid por_valor [] pid = ok []
tabla_con_pid por_valor (t ∷ tabla) pid =
    bind (por_valor t)
      (λ v. bind (tabla_con_pid por_valor tabla pid) (λ bs. ok (int_eq v.pid pid ∷ bs)))

unfoldable pub tabla_segmento_crear :
    PorValor → List TablaSegmento → ℤ → Segmento → Outcome TablaSegmento
unfolding tabla_con_pid
tabla_segmento_crear por_valor tabla pid seg = bind (tabla_con_pid por_valor tabla pid) (λ bs.
    ok (record {
      id = seg.id;
      pid = pid;
      id_seg_pcb = pos (if length bs == 0 then 0 else length bs + 1);
      limite = seg.limite;
      base = pos seg.base;
    }))

-- `list_remove_element` of the row that `list_find` returns.
unfoldable pub quitar : List TablaSegmento → ℤ → List TablaSegmento
unfolding int_eq
quitar [] id = []
quitar (t ∷ tabla) id = let resto = quitar tabla id in if int_eq id t.id then tabla else t ∷ resto

-- `list_remove_by_condition` with a condition of that kind on the id.
unfoldable pub quitar_por_valor : PorValor → List TablaSegmento → ℤ → Outcome (List TablaSegmento)
unfolding int_eq
quitar_por_valor por_valor [] id = ok []
quitar_por_valor por_valor (t ∷ tabla) id = bind (por_valor t) (λ v.
    if int_eq v.id id
    then ok tabla
    else bind (quitar_por_valor por_valor tabla id) (λ resto. ok (t ∷ resto)))

module _ (B : Bitarray) where
  -- The bitmap and the table of segments.
  pub record Memoria : Type 0 where
    pub mapa : B.Rep
    pub tabla : List TablaSegmento

  -- `liberarBitMap` at the numbers of a row; a negative position lies outside of the array.
  unfoldable pub liberar_fila : B.Rep → TablaSegmento → Outcome (B.Rep)
  unfolding liberar_bit_map vueltas
  liberar_fila b t = elim t.base [
    | pos n ↦ ok (liberar_bit_map B b n t.limite)
    | negsuc n ↦ elim (vueltas t.limite) [ zero ↦ ok b | suc m ↦ fault ]
  ]

  unfoldable pub eleminar_segmento : Memoria → ℤ → Outcome Memoria
  unfolding find_segmento_con_id liberar_fila quitar
  eleminar_segmento m id = elim (find_segmento_con_id m.tabla id) [
    | none ↦ fault
    | some t ↦
        bind (liberar_fila m.mapa t)
          (λ mapa. ok (record { mapa = mapa; tabla = quitar m.tabla id }))
  ]

-- `rta` is the kernel's answer to a request for compaction; what is sent to the kernel is a list of
-- headers.
module _ (B : Bitarray) (tam rta : ℕ) where
  -- With no candidate the memory is compacted, and the report of the new table then takes the
  -- number of its rows for an address. With several, `elegirSegunCriterio` returns nothing.
  unfoldable pub elegir : List Hueco → Outcome (Hueco × List ℕ)
  elegir [] = if rta == Saludo.hs_aux then fault else exit
  elegir (h ∷ []) = ok (h, Header.general ∷ [])
  elegir (h ∷ _ ∷ _) = fault

  unfoldable pub buscar_segmento_segun_tamanio : B.Rep → ℤ → Outcome (Hueco × List ℕ)
  unfolding buscar_segmento_disponible pueden_guardar elegir
  buscar_segmento_segun_tamanio b size = elim (buscar_segmento_disponible B tam b) [
    | none ↦ fault
    | some huecos ↦ elegir (pueden_guardar huecos size)
  ]

  unfoldable pub create_segmento : B.Rep → ℤ → ℤ → Outcome (B.Rep × Segmento × List ℕ)
  unfolding buscar_segmento_segun_tamanio ocupar_bit_map
  create_segmento b id size = bind (buscar_segmento_segun_tamanio b size) (λ r.
      ok
        (ocupar_bit_map B b r.0.base size, record { id = id; base = r.0.base; limite = size }, r.1))

  unfoldable pub crear_nuevo_segmento :
      PorValor → Memoria B → ℤ → ℤ → ℤ → Outcome (Memoria B × TablaSegmento × List ℕ)
  unfolding create_segmento tabla_segmento_crear tabla_con_pid
  crear_nuevo_segmento por_valor m id size pid = bind (tabla_con_pid por_valor m.tabla pid) (λ _.
      bind (create_segmento m.mapa id size) (λ r.
        bind (tabla_segmento_crear por_valor m.tabla pid (r.1))
          (λ fila. ok (record { mapa = r.0; tabla = m.tabla ++ fila ∷ [] }, fila, r.2))))
