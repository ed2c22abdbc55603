-- ===== src/Memoria/Segmentos/Deshecho.antt =====
-- Creation of a segment followed by its removal.
use tp_so20231c.Common.{
  ℕ, suc, ◌≤◌, ◌<◌, ◌≡◌, ◌≢◌, refl, sym, ap, ◌∙◌, List, [], ◌∷◌, ◌++◌, Option, none, some, Bool,
  true, false, Bool-cases, ok, arith, ◌⊎◌, inl, inr, if◌then◌else◌,
}
use tp_so20231c.Common.Int.{ℤ, pos, pos_part}
use tp_so20231c.Utils.Types.{TablaSegmento}
use tp_so20231c.Utils.Segments.{int_eq, eq_int_eq, find_segmento_con_id}
use tp_so20231c.Memoria.Bitarray.{Bitarray}
use tp_so20231c.Memoria.Espacios.{vueltas, ocupar_bit_map}
use tp_so20231c.Memoria.Espacios.Marcas.{marcar_fuera}
use tp_so20231c.Memoria.Segmentos.{
  quitar, Memoria, eleminar_segmento, crear_nuevo_segmento, PorValor,
}
use tp_so20231c.Memoria.Segmentos.Validez.{inicio, fin, Valida, crear_nuevo_segmento_lem}
use tp_so20231c.Memoria.Segmentos.Borrado.{eleminar_segmento_lem}

ultima :
    (tabla : List TablaSegmento) (id : ℤ) (fila : TablaSegmento)
    → find_segmento_con_id tabla id ≡ none
    → fila.id ≡ id
    → (find_segmento_con_id (tabla ++ fila ∷ []) id ≡ some fila)
      × (quitar (tabla ++ fila ∷ []) id ≡ tabla)
unfolding find_segmento_con_id quitar
ultima [] id fila h e = rw (eq_int_eq id fila.id (sym e)) (refl, refl)
ultima (x ∷ tabla) id fila h e = elim (Bool-cases (int_eq id x.id)) [
  | inl k ↦ absurd (ninguno (int_eq id x.id) x (find_segmento_con_id tabla id) k h)
  | inr k ↦
      let q : find_segmento_con_id tabla id ≡ none = deja (int_eq id x.id) x _ k h in
      let r = ultima tabla id fila q e in rw k (r.0, ap (λ z. x ∷ z) (r.1))
]
  where
    ninguno :
        (b : Bool) (x : TablaSegmento) (o : Option TablaSegmento)
        → b ≡ true
        → (if b then some x else o) ≡ none
        → ⊥
    ninguno b x o k h = ground arith

    deja :
        (b : Bool) (x : TablaSegmento) (o : Option TablaSegmento)
        → b ≡ false
        → (if b then some x else o) ≡ none
        → o ≡ none
    deja b x o k h = ground arith

-- In a memory whose table agrees with its bitmap, a creation under a fresh number that succeeds can
-- be undone: the removal succeeds and gives back the table, and every bit but one. The bit behind
-- the segment is free afterwards, whatever it was before.
pub crear-eleminar :
    (B : Bitarray) (tam rta : ℕ) (por_valor : PorValor) (m : Memoria B) (id pid : ℤ) (s : ℕ)
    (r : Memoria B × TablaSegmento × List ℕ)
    → tam < B.bits
    → Valida B tam m.mapa m.tabla
    → find_segmento_con_id m.tabla id ≡ none
    → crear_nuevo_segmento B tam rta por_valor m id (pos s) pid ≡ ok r
    → (m' : Memoria B) × (eleminar_segmento B (r.0) id ≡ ok m')
      × (m'.tabla ≡ m.tabla)
      × ((j : ℕ) → j ≢ fin (r.1) → B.test m'.mapa j ≡ B.test m.mapa j)
      × (B.test m'.mapa (fin (r.1)) ≡ false)
unfolding ocupar_bit_map vueltas
crear-eleminar B tam rta por_valor m id pid s r h v n e =
    let c = crear_nuevo_segmento_lem B tam rta por_valor m id pid s r h v e in
    let u = ultima m.tabla id (r.1) n (c.0.4) in
    let d = eleminar_segmento_lem B tam (r.0) id (r.1) h (c.1) (rw (c.0.3) (u.0)) in
    (
      d.0,
      d.1,
      d.2 ∙ ap (λ t. quitar t id) (c.0.3) ∙ u.1,
      λ j q. elim (lado (r.1) j q) [
        | inl f ↦
            d.4 j f
            ∙ ap (λ b. B.test b j) (c.0.2)
            ∙ marcar_fuera B (suc s) m.mapa (c.0.0) j (omega (arith, c.0.1.0))
                (omega (arith, ap pos_part (c.0.6), ap pos_part (c.0.7)))
        | inr p ↦
            d.3 j (p.0) (omega (arith, p.1))
            ∙ sym (
                c.0.1.1 j (omega (arith, p.0, ap pos_part (c.0.6)))
                  (omega (arith, p.1, ap pos_part (c.0.6), ap pos_part (c.0.7))))
      ],
      d.3 (fin (r.1)) (omega arith) (omega arith),
    )
  where
    lado :
        (t : TablaSegmento) (j : ℕ)
        → j ≢ fin t
        → ((j < inicio t) ⊎ (fin t < j)) ⊎ ((inicio t ≤ j) × (j < fin t))
    lado t j q = ground arith
