-- ===== src/Memoria/Espacios/Huecos.antt =====
-- The list of free segments describes the bitmap.
use tp_so20231c.Common.{
  ℕ, zero, suc, ◌+◌, ◌-◌, ◌≤◌, ◌<◌, ◌≡◌, ◌≢◌, refl, sym, ap, ◌∙◌, List, [], ◌∷◌, some, Bool, true,
  false, Bool-cases, ltb, ltb→lt, arith, inl, inr,
}
use tp_so20231c.Memoria.Bitarray.{Bitarray}
use tp_so20231c.Memoria.Espacios.{
  Hueco, contar_ocupados, contar_libres, contar_espacios_ocupados_desde,
  contar_espacios_libres_desde, disponibles_desde, buscar_lugar_disponibles, buscar_segmento_desde,
  buscar_segmento_disponible, tamanio_total_dispo,
}
use tp_so20231c.Memoria.Espacios.Cuenta.{
  Todos, Tramo, contar_libres-Tramo, contar_ocupados-Tramo, disponibles-Todos,
}

abbrev pub suma : List Hueco → ℕ
suma [] = 0
suma (h ∷ huecos) = h.limite + suma huecos

module _ (B : Bitarray) (tam : ℕ) where
  -- From `base` to the end of the memory the bits are, in turn, occupied up to a hole, free over the
  -- hole, and occupied behind it if the memory goes on.
  abbrev pub Describe : B.Rep → ℕ → List Hueco → Type 0
  Describe b base [] = tam ≤ base
  Describe b base (h ∷ huecos) =
      (base ≤ h.base)
      × (h.base + h.limite ≤ tam)
      × Todos B b true base h.base
      × Todos B b false h.base (h.base + h.limite)
      × (h.base + h.limite < tam → B.test b (h.base + h.limite) ≡ true)
      × Describe b (h.base + h.limite) huecos

module _ (B : Bitarray) (tam : ℕ) where
  -- One hole, and the progress over it.
  abbrev EsHueco : B.Rep → ℕ → Hueco → Type 0
  EsHueco b base h =
      (base ≤ h.base)
      × (h.base + h.limite ≤ tam)
      × Todos B b true base h.base
      × Todos B b false h.base (h.base + h.limite)
      × (h.base + h.limite < tam → B.test b (h.base + h.limite) ≡ true)
      × (base < h.base + h.limite)

  ocupado : (b : Bool) → b ≢ false → b ≡ true
  ocupado true n = refl
  ocupado false n = absurd (n refl)

  positivo : (b : B.Rep) (v : Bool) (n i k : ℕ) → Tramo B b v n i k → 0 < n → B.test b i ≡ v → 0 < k
  positivo b v n i zero t l e = absurd (t.2 l (rw (mas i) e))
    where
      mas : (i : ℕ) → i + 0 ≡ i
      mas i = omega arith
  positivo b v n i (suc k) t l e = omega arith

  -- A hole from base' on, with occupied bits in front.
  arma :
      (b : B.Rep) (base base' k : ℕ)
      → base ≤ base'
      → base' ≤ tam
      → Todos B b true base base'
      → Tramo B b false (tam - base') base' k
      → base < base' + k
      → EsHueco b base (record { base = base'; limite = k })
  arma b base base' k l m o t p =
      (l, omega (arith, t.0), o, t.1, λ u. ocupado _ (t.2 (omega arith)), p)

  buscar_lugar-EsHueco :
      (b : B.Rep) (base : ℕ)
      → base < tam
      → EsHueco b base ((buscar_lugar_disponibles B tam b base).0)
  unfolding buscar_lugar_disponibles contar_espacios_ocupados_desde contar_espacios_libres_desde
  buscar_lugar-EsHueco b base h = elim (Bool-cases (B.test b base)) [
    | inl e ↦
        let t = contar_ocupados-Tramo B (tam - base) b base in
        let p = positivo b true (tam - base) base _ t (omega arith) e in
        let base' : ℕ = base + contar_ocupados B (tam - base) b base in
        rw e (
          arma b base base' (contar_libres B (tam - base') b base') (omega arith)
            (omega (arith, t.0)) (t.1) (contar_libres-Tramo B (tam - base') b base')
            (omega (arith, p)))
    | inr e ↦
        let t = contar_libres-Tramo B (tam - base) b base in
        let p = positivo b false (tam - base) base _ t (omega arith) e in
        rw e (
          arma b base base (contar_libres B (tam - base) b base) (omega arith) (omega arith)
            (λ j l u. absurd (omega arith)) t (omega (arith, p)))
  ]

  fin_del_lugar :
      (b : B.Rep) (base : ℕ)
      → (buscar_lugar_disponibles B tam b base).1
        ≡ (buscar_lugar_disponibles B tam b base).0.base
          + (buscar_lugar_disponibles B tam b base).0.limite
  unfolding buscar_lugar_disponibles
  fin_del_lugar b base = refl

  -- The free positions from base on: those of the hole, and those behind it.
  disponibles-EsHueco :
      (b : B.Rep) (base : ℕ) (h : Hueco)
      → EsHueco b base h
      → disponibles_desde B (tam - base) b base
        ≡ h.limite + disponibles_desde B (tam - (h.base + h.limite)) b (h.base + h.limite)
  disponibles-EsHueco b base h l =
      disponibles-Todos B b true (h.base - base) (tam - h.base) (tam - base) base h.base
        (omega (arith, l.0, l.1)) (omega (arith, l.0)) (l.2)
      ∙ cero _
      ∙ disponibles-Todos B b false h.limite (tam - (h.base + h.limite)) (tam - h.base) h.base
          (h.base + h.limite) (omega (arith, l.1)) refl (l.3)
    where
      cero : (n : ℕ) → 0 + n ≡ n
      cero n = omega arith

  ninguna : (b : B.Rep) (n base : ℕ) → n ≡ 0 → 0 ≡ disponibles_desde B n b base
  unfolding disponibles_desde
  ninguna b n base e = rw e refl

  buscar_segmento_desde_lem :
      (n : ℕ) (b : B.Rep) (base : ℕ)
      → tam ≤ base + n
      → (huecos : List Hueco) × (buscar_segmento_desde B tam n b base ≡ some huecos)
        × Describe B tam b base huecos
        × (suma huecos ≡ disponibles_desde B (tam - base) b base)
  unfolding buscar_segmento_desde
  buscar_segmento_desde_lem zero b base h =
      let e : ltb base tam ≡ false = ground arith in
      ([], rw e refl, omega arith, ninguna b (tam - base) base (omega arith))
  buscar_segmento_desde_lem (suc n) b base h = elim (Bool-cases (ltb base tam)) [
    | inl e ↦
        let lugar = buscar_lugar_disponibles B tam b base in
        let l = buscar_lugar-EsHueco b base (ltb→lt base tam e) in
        let f = fin_del_lugar b base in
        let r =
          buscar_segmento_desde_lem n b (lugar.0.base + lugar.0.limite) (omega (arith, l.5)) in
        (
          lugar.0 ∷ r.0,
          rw (e, f, r.1) refl,
          (l.0, l.1, l.2, l.3, l.4, r.2),
          ap (λ k. lugar.0.limite + k) (r.3) ∙ sym (disponibles-EsHueco b base (lugar.0) l),
        )
    | inr e ↦ ([], rw e refl, ground arith, ninguna b (tam - base) base (ground arith))
  ]

  -- The search for free segments ends within `tam` turns. Its holes, in order, describe the whole
  -- bitmap below `tam`: the bits of a hole are free, all the others are occupied, and no hole can
  -- be made longer. Their lengths add up to what `tamanioTotalDispo` counts bit by bit.
  pub buscar_segmento_disponible_lem :
      (b : B.Rep)
      → (huecos : List Hueco) × (buscar_segmento_disponible B tam b ≡ some huecos)
        × Describe B tam b 0 huecos
        × (suma huecos ≡ tamanio_total_dispo B tam b)
  unfolding buscar_segmento_disponible tamanio_total_dispo
  buscar_segmento_disponible_lem b =
      let r = buscar_segmento_desde_lem tam b 0 (omega arith) in
      (r.0, r.1, r.2, r.3 ∙ ap (λ n. disponibles_desde B n b 0) (todo tam))
    where
      todo : (n : ℕ) → n - 0 ≡ n
      todo n = omega arith
