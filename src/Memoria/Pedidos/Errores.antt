-- ===== src/Memoria/Pedidos/Errores.antt =====
-- The turns at requests that are not a segment's creation.
use tp_so20231c.Common.{
  ℕ, ◌<◌, ◌≡◌, ◌≢◌, refl, ◌∙◌, List, [], ◌∷◌, ◌++◌, append_assoc, append-nil, Bool, true, false,
  Bool-cases, Option-cases, none, some, Outcome, ok, fault, bind, arith, if◌then◌else◌, ◌⊎◌, inl,
  inr,
}
use tp_so20231c.Common.Int.{ℤ, pos}
use tp_so20231c.Utils.Flag
use tp_so20231c.Utils.Types.{TablaSegmento}
use tp_so20231c.Utils.Buffer.{u32_bytes}
use tp_so20231c.Utils.Buffer.Decodes.{Decodes}
use tp_so20231c.Utils.Buffer.Laws.{IsInt, int_bytes, int_bytes-Decodes, length-int_bytes}
use tp_so20231c.Utils.Segments.{int_eq, find_segmento_con_id, int_eq_eq, eq_int_eq}
use tp_so20231c.Utils.Frames.{Stream, stream_recv_buffer}
use tp_so20231c.Utils.Frames.Laws.{stream_recv_buffer-Decodes}
use tp_so20231c.Utils.Frames.Marcos.{marco, marco_saludo-Decodes}
use tp_so20231c.Memoria.Bitarray.{Bitarray}
use tp_so20231c.Memoria.Segmentos.{Memoria, eleminar_segmento, quitar, PorValor, quitar_por_valor}
use tp_so20231c.Memoria.Segmentos.Validez.{Valida}
use tp_so20231c.Memoria.Segmentos.Borrado.{eleminar_segmento_lem}
use tp_so20231c.Memoria.Pedidos.{caso_delete, peticion_kernel}

-- A request to remove a segment, as the memory reads it.
pub borrar_bytes : ℤ → List ℕ
borrar_bytes id = marco Flag.i_delete_segment [] ++ (u32_bytes 4 ++ int_bytes id)

cuerpo-Decodes : (id : ℤ) → Decodes stream_recv_buffer (u32_bytes 4 ++ int_bytes id) (int_bytes id)
cuerpo-Decodes id =
    rw length-int_bytes at
      (stream_recv_buffer-Decodes (int_bytes id) (omega (arith, length-int_bytes id)))

module _ (B : Bitarray) (tam rta : ℕ) (por_valor : PorValor) where
  -- The list that is left is gone through with a condition that takes a row by value.
  abbrev resto : ℤ → Stream → Stream → Memoria B → Outcome (Memoria B × Stream × Stream)
  resto id rest to m' =
      bind (quitar_por_valor por_valor m'.tabla id)
        (λ tabla. ok (record m' { tabla = tabla }, rest, to))

  -- What removes a segment comes to behind the reading.
  abbrev borrado : Stream → Stream → Memoria B → ℤ → Outcome (Memoria B × Stream × Stream)
  borrado rest to m id =
      if int_eq id (pos 0)
      then ok (m, rest, to)
      else bind (eleminar_segmento B m id) (resto id rest to)

  al_borrar :
      (m : Memoria B) (id : ℤ) (rest to : Stream)
      → IsInt id
      → peticion_kernel B tam rta por_valor m (borrar_bytes id ++ rest) to ≡ borrado rest to m id
  unfolding peticion_kernel caso_delete borrar_bytes
  al_borrar m id rest to i =
      rw (append_assoc (marco Flag.i_delete_segment []) (u32_bytes 4 ++ int_bytes id) rest) (
        rw
          (
            (marco_saludo-Decodes Flag.i_delete_segment (omega arith)).reads
                ((u32_bytes 4 ++ int_bytes id) ++ rest),
            bind,
          )
          (rw ((cuerpo-Decodes id).reads rest, bind)
            (rw (rw append-nil at ((int_bytes-Decodes id i).reads []), bind) refl)))

  vacia :
      (id : ℤ) (rest to : Stream) (mapa : B.Rep) (tabla : List TablaSegmento)
      → tabla ≡ []
      → resto id rest to (record { mapa = mapa; tabla = tabla })
        ≡ ok (record { mapa = mapa; tabla = tabla }, rest, to)
  unfolding quitar_por_valor
  vacia id rest to mapa tabla q = rw q refl

  -- An id that is not 0, at a table with or without it.
  borrado_lem :
      (m : Memoria B) (id : ℤ) (rest to : Stream)
      → tam < B.bits
      → Valida B tam m.mapa m.tabla
      → int_eq id (pos 0) ≡ false
      → (find_segmento_con_id m.tabla id ≡ none) × (borrado rest to m id ≡ fault)
        ⊎ ((t : TablaSegmento) × (m' : Memoria B) × (find_segmento_con_id m.tabla id ≡ some t)
            × (m'.tabla ≡ quitar m.tabla id)
            × ((quitar m.tabla id ≢ []) × (borrado rest to m id ≡ resto id rest to m')
                ⊎ (quitar m.tabla id ≡ []) × (borrado rest to m id ≡ ok (m', rest, to))))
  unfolding eleminar_segmento
  borrado_lem m id rest to h v z = elim (Option-cases (find_segmento_con_id m.tabla id)) [
    | inl n ↦ inl (n, rw (z, n, eleminar_segmento) refl)
    | inr e ↦
        let d = eleminar_segmento_lem B tam m id (e.0) h v (e.1) in
        inr (
          e.0,
          d.0,
          e.1,
          d.2,
          elim (lista (quitar m.tabla id)) [
            | inl q ↦ inr (q, rw (z, d.1) (sigue (d.0) (d.2 ∙ q)))
            | inr q ↦ inl (ground (arith, q.2), rw (z, d.1) refl)
          ],
        )
  ]
    where
      lista :
          (ts : List TablaSegmento)
          → (ts ≡ []) ⊎ ((t : TablaSegmento) × (us : List TablaSegmento) × (ts ≡ t ∷ us))
      lista [] = inl refl
      lista (t ∷ us) = inr (t, us, refl)

      sigue : (m' : Memoria B) → m'.tabla ≡ [] → resto id rest to m' ≡ ok (m', rest, to)
      sigue m' q = vacia id rest to m'.mapa m'.tabla q

  -- The memory's turn at a request to remove a segment, in a memory whose table agrees with its
  -- bitmap. The number 0 changes nothing and sends nothing. A number that no row has ends in a NULL
  -- pointer that is followed. Where a row has it, that row goes, and if it was the last row the turn
  -- succeeds with an empty table. With any row left the turn ends as a second removal does, on the
  -- rows left, by a condition that takes a row by value: where reading the first of them is a fault,
  -- the turn is one.
  pub pedido_borrar :
      (m : Memoria B) (id : ℤ) (rest to : Stream)
      → tam < B.bits
      → Valida B tam m.mapa m.tabla
      → IsInt id
      → let turno = peticion_kernel B tam rta por_valor m (borrar_bytes id ++ rest) to in
        (id ≡ pos 0) × (turno ≡ ok (m, rest, to))
        ⊎ (id ≢ pos 0) × (find_segmento_con_id m.tabla id ≡ none) × (turno ≡ fault)
        ⊎ (id ≢ pos 0)
          × ((t : TablaSegmento) × (m' : Memoria B) × (find_segmento_con_id m.tabla id ≡ some t)
              × (m'.tabla ≡ quitar m.tabla id)
              × ((quitar m.tabla id ≢ [])
                    × (turno
                        ≡ bind
                            (quitar_por_valor por_valor m'.tabla id)
                            (λ tabla. ok (record m' { tabla = tabla }, rest, to)))
                  ⊎ (quitar m.tabla id ≡ []) × (turno ≡ ok (m', rest, to))))
  pedido_borrar m id rest to h v i =
      rw (al_borrar m id rest to i) (elim (Bool-cases (int_eq id (pos 0))) [
        | inl z ↦ inl (int_eq_eq id (pos 0) z, rw z refl)
        | inr z ↦
            let n : id ≢ pos 0 = λ e. distinto (int_eq id (pos 0)) (eq_int_eq id (pos 0) e) z in
            elim (borrado_lem m id rest to h v z) [
              | inl q ↦ inr (inl (n, q.0, q.1))
              | inr q ↦ inr (inr (n, q))
            ]
      ])
    where
      distinto : (b : Bool) → b ≡ true → b ≡ false → ⊥
      distinto b p q = ground arith
