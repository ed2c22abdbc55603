-- ===== src/Memoria/Arranque/Limpia.antt =====
-- In a memory with no bit set there is one hole, the whole, and a segment goes to its beginning.
use tp_so20231c.Common.{
  ℕ, zero, suc, ◌+◌, ◌-◌, ltb, ◌≤◌, ◌<◌, ◌≡◌, refl, ap, ◌∙◌, [], ◌∷◌, some, true, false, ok, arith,
}
use tp_so20231c.Common.Int.{pos, ltb_ℤ}
use tp_so20231c.Utils.Header
use tp_so20231c.Utils.Types.{TablaSegmento}
use tp_so20231c.Memoria.Bitarray.{Bitarray}
use tp_so20231c.Memoria.Espacios.{
  contar_libres, contar_espacios_libres_desde, buscar_lugar_disponibles, buscar_segmento_desde,
  buscar_segmento_disponible, ocupar_bit_map,
}
use tp_so20231c.Memoria.Espacios.Cuenta.{Todos}
use tp_so20231c.Memoria.Segmentos.{
  pueden_guardar, elegir, buscar_segmento_segun_tamanio, create_segmento, crear_nuevo_segmento,
  tabla_segmento_crear, PorValor, tabla_con_pid,
}

-- The row of segment zero.
abbrev pub fila_zero : ℕ → TablaSegmento
fila_zero s = record { id = pos 0; pid = pos 0; id_seg_pcb = pos 0; limite = pos s; base = pos 0 }

module _ (B : Bitarray) (tam : ℕ) (b : B.Rep) (limpio : Todos B b false 0 tam) where
  todas_libres : (n i : ℕ) → i + n ≡ tam → contar_libres B n b i ≡ n
  unfolding contar_libres
  todas_libres zero i e = refl
  todas_libres (suc n) i e =
      rw (limpio i (omega arith) (omega arith)) (ap suc (todas_libres n (suc i) (omega arith)))

  -- The search behind the end of the memory.
  al_final : (n : ℕ) → buscar_segmento_desde B tam n b tam ≡ some []
  unfolding buscar_segmento_desde
  al_final zero = let e : ltb tam tam ≡ false = ground arith in rw e refl
  al_final (suc n) = let e : ltb tam tam ≡ false = ground arith in rw e refl

  un_hueco : 0 < tam → (buscar_lugar_disponibles B tam b 0).0 ≡ record { base = 0; limite = tam }
  unfolding buscar_lugar_disponibles contar_espacios_libres_desde
  un_hueco h =
      let nada : tam - 0 ≡ tam = omega arith in
      rw (limpio 0 (omega arith) h) (rw (nada, todas_libres tam 0 (omega arith)) refl)

  un_paso :
      (n : ℕ)
      → 0 < tam
      → buscar_segmento_desde B tam (suc n) b 0 ≡ some (record { base = 0; limite = tam } ∷ [])
  unfolding buscar_segmento_desde buscar_lugar_disponibles contar_espacios_libres_desde
  un_paso n h =
      let t : ltb 0 tam ≡ true = ground arith in
      let nada : tam - 0 ≡ tam = omega arith in
      let suma : 0 + tam ≡ tam = omega arith in
      rw (t, limpio 0 (omega arith) h)
        (rw (nada, todas_libres tam 0 (omega arith), suma)
          (rw (al_final n) (ap (λ x. some (x ∷ [])) (un_hueco h))))

  entera :
      0 < tam → buscar_segmento_disponible B tam b ≡ some (record { base = 0; limite = tam } ∷ [])
  unfolding buscar_segmento_disponible
  entera h =
      let mas : tam ≡ suc (tam - 1) = omega arith in
      ap (λ n. buscar_segmento_desde B tam n b 0) mas ∙ un_paso (tam - 1) h

  -- Segment zero in a memory with an empty table.
  pub primer_segmento :
      (por_valor : PorValor) (rta s : ℕ)
      → 0 < tam
      → s ≤ tam
      → crear_nuevo_segmento B tam rta por_valor
          (record { mapa = b; tabla = [] })
          (pos 0)
          (pos s)
          (pos 0)
        ≡ ok (
          record { mapa = ocupar_bit_map B b 0 (pos s); tabla = fila_zero s ∷ [] },
          fila_zero s,
          Header.general ∷ [],
        )
  unfolding crear_nuevo_segmento create_segmento buscar_segmento_segun_tamanio pueden_guardar elegir
      tabla_segmento_crear tabla_con_pid
  primer_segmento por_valor rta s h l =
      let cabe : ltb_ℤ (pos tam) (pos s) ≡ false = ground arith in
      rw (entera h, buscar_segmento_segun_tamanio) (rw cabe refl)
