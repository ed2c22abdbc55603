-- ===== src/Memoria/Segmentos/Borrado.antt =====
-- Removal of a segment.
use mathlib.Core.Path.{subst}
use tp_so20231c.Common.{
  ℕ, suc, ◌+◌, ◌≤◌, ◌<◌, ◌≡◌, refl, sym, ap, ◌∙◌, List, [], ◌∷◌, Option, some, Bool, true, false,
  Bool-cases, Outcome, ok, arith, ◌⊎◌, inl, inr, if◌then◌else◌,
}
use mathlib.Core.List.{Memᴰ}
use mathlib.Core.List.Memᴰ.{head, tail}
use tp_so20231c.Common.Int.{ℤ, pos, pos_part}
use tp_so20231c.Utils.Types.{TablaSegmento}
use tp_so20231c.Utils.Segments.{int_eq, find_segmento_con_id}
use tp_so20231c.Memoria.Bitarray.{Bitarray}
use tp_so20231c.Memoria.Espacios.{vueltas, liberar_bit_map, limpiar}
use tp_so20231c.Memoria.Espacios.Marcas.{limpiar_dentro, limpiar_fuera}
use tp_so20231c.Memoria.Segmentos.{quitar, Memoria, liberar_fila, eleminar_segmento}
use tp_so20231c.Memoria.Segmentos.Validez.{inicio, fin, Disjuntas, Separada, Fila, Valida}

-- The position behind row t belongs to no row.
abbrev pub SinVecina : TablaSegmento → List TablaSegmento → Type 0
SinVecina t tabla = (u : TablaSegmento) → Memᴰ u tabla → inicio u ≤ fin t → fin t < fin u → ⊥

hallado_o_resto :
    (b : Bool) (x t : TablaSegmento) (o : Option TablaSegmento)
    → (if b then some x else o) ≡ some t
    → ((b ≡ true) × (x ≡ t)) ⊎ ((b ≡ false) × (o ≡ some t))
hallado_o_resto b x t o h = ground arith

module _ (B : Bitarray) (tam : ℕ) where
  -- The bits behind the rows other than t are as before.
  Iguales : B.Rep → B.Rep → TablaSegmento → Type 0
  Iguales b b' t = (j : ℕ) → (j < inicio t) ⊎ (fin t < j) → B.test b' j ≡ B.test b j

  otra_intacta :
      (b b' : B.Rep) (t u : TablaSegmento)
      → Iguales b b' t
      → Disjuntas t u
      → (inicio u ≤ fin t → fin t < fin u → ⊥)
      → Fila B tam b u
      → Fila B tam b' u
  unfolding Iguales
  otra_intacta b b' t u g d n f = (
    f.0,
    f.1,
    f.2,
    λ j l a. elim (lado t j) [
      | inl o ↦ g j o ∙ f.3 j l a
      | inr q ↦ elim q [
        | inl e ↦ absurd (n (omega arith) (omega arith))
        | inr p ↦ absurd (d j (p.0) (p.1) l a)
      ]
    ],
  )
    where
      lado :
          (t : TablaSegmento) (j : ℕ)
          → ((j < inicio t) ⊎ (fin t < j)) ⊎ ((j ≡ fin t) ⊎ ((inicio t ≤ j) × (j < fin t)))
      lado t j = ground arith

  otras :
      (b b' : B.Rep) (t : TablaSegmento) (tabla : List TablaSegmento)
      → Iguales b b' t
      → Separada t tabla
      → SinVecina t tabla
      → Valida B tam b tabla
      → Valida B tam b' tabla
  otras b b' t [] g s n v = tt
  otras b b' t (u ∷ tabla) g s n v = (
    otra_intacta b b' t u g (s.0) (n u (head refl)) (v.0),
    v.1,
    otras b b' t tabla g (s.1) (λ x m. n x (tail m)) (v.2),
  )

  encontrada :
      (b : B.Rep) (tabla : List TablaSegmento) (id : ℤ) (t : TablaSegmento)
      → find_segmento_con_id tabla id ≡ some t
      → Valida B tam b tabla
      → Memᴰ t tabla × Fila B tam b t
  unfolding find_segmento_con_id
  encontrada b [] id t h v = ground arith
  encontrada b (x ∷ tabla) id t h v =
      elim (hallado_o_resto (int_eq id x.id) x t (find_segmento_con_id tabla id) h) [
        | inl e ↦ (head (sym (e.1)), rw (sym (e.1)) (v.0))
        | inr e ↦ let r = encontrada b tabla id t (e.1) (v.2) in (tail (r.0), r.1)
      ]

  aparte_de :
      (x t : TablaSegmento) (tabla : List TablaSegmento)
      → Memᴰ t tabla
      → Separada x tabla
      → Disjuntas t x
  aparte_de x t [] m s = elim m [ ]
  aparte_de x t (u ∷ tabla) (head e) s = rw e (λ j a c d f. s.0 j d f a c)
  aparte_de x t (u ∷ tabla) (tail m) s = aparte_de x t tabla m (s.1)

  aparte_sin :
      (x : TablaSegmento) (tabla : List TablaSegmento) (id : ℤ)
      → Separada x tabla
      → Separada x (quitar tabla id)
  unfolding quitar
  aparte_sin x [] id s = tt
  aparte_sin x (u ∷ tabla) id s = elim (Bool-cases (int_eq id u.id)) [
    | inl e ↦ rw e (s.1)
    | inr e ↦ rw e (s.0, aparte_sin x tabla id (s.1))
  ]

  quitada :
      (b b' : B.Rep) (tabla : List TablaSegmento) (id : ℤ) (t : TablaSegmento)
      → find_segmento_con_id tabla id ≡ some t
      → Iguales b b' t
      → SinVecina t (quitar tabla id)
      → Valida B tam b tabla
      → Valida B tam b' (quitar tabla id)
  unfolding find_segmento_con_id quitar
  quitada b b' [] id t h g n v = tt
  quitada b b' (x ∷ tabla) id t h g n v =
      elim (hallado_o_resto (int_eq id x.id) x t (find_segmento_con_id tabla id) h) [
        | inl e ↦
            let q = ap (λ c. if c then tabla else x ∷ quitar tabla id) (e.0) in
            rw (e.0) (otras b b' t tabla g (rw (sym (e.1)) (v.1)) (subst (SinVecina t) q n) (v.2))
        | inr e ↦
            let q = ap (λ c. if c then tabla else x ∷ quitar tabla id) (e.0) in
            let n' = subst (SinVecina t) q n in
            let m = (encontrada b tabla id t (e.1) (v.2)).0 in
            rw (e.0) (
              otra_intacta b b' t x g (aparte_de x t tabla m (v.1)) (n' x (head refl)) (v.0),
              aparte_sin x tabla id (v.1),
              quitada b b' tabla id t (e.1) g (λ u k. n' u (tail k)) (v.2),
            )
      ]

  liberar_fila_lem :
      (b : B.Rep) (t : TablaSegmento) (n l : ℕ)
      → t.base ≡ pos n
      → t.limite ≡ pos l
      → liberar_fila B b t ≡ ok (limpiar B (suc l) b n)
  unfolding liberar_fila liberar_bit_map vueltas
  liberar_fila_lem b t n l e f = rw (e, liberar_fila, f) refl

  pasos :
      (m : Memoria B) (id : ℤ) (t : TablaSegmento) (n l : ℕ)
      → find_segmento_con_id m.tabla id ≡ some t
      → t.base ≡ pos n
      → t.limite ≡ pos l
      → eleminar_segmento B m id
        ≡ ok (record { mapa = limpiar B (suc l) m.mapa n; tabla = quitar m.tabla id })
  unfolding eleminar_segmento
  pasos m id t n l h e f = rw (h, eleminar_segmento, liberar_fila_lem m.mapa t n l e f) refl

  ok_inj : (a b : Memoria B) → ◌≡◌ {A = Outcome (Memoria B)} (ok a) (ok b) → a ≡ b
  ok_inj a b e = ground arith

  -- The removal of the row t of a table that agrees with the bitmap succeeds. The row is dropped,
  -- its positions and the one behind them become free, and all others stay.
  pub eleminar_segmento_lem :
      (m : Memoria B) (id : ℤ) (t : TablaSegmento)
      → tam < B.bits
      → Valida B tam m.mapa m.tabla
      → find_segmento_con_id m.tabla id ≡ some t
      → (m' : Memoria B) × (eleminar_segmento B m id ≡ ok m')
        × (m'.tabla ≡ quitar m.tabla id)
        × ((j : ℕ) → inicio t ≤ j → j ≤ fin t → B.test m'.mapa j ≡ false)
        × ((j : ℕ) → (j < inicio t) ⊎ (fin t < j) → B.test m'.mapa j ≡ B.test m.mapa j)
  unfolding Iguales
  eleminar_segmento_lem m id t h v e =
      let f = (encontrada m.mapa m.tabla id t e v).1 in
      let n = pos_part t.limite in
      let mapa = limpiar B (suc n) m.mapa (inicio t) in
      let dentro : inicio t + suc n ≤ B.bits = omega (arith, f.2) in
      let igual = λ (j : ℕ) (q : (j < inicio t) ⊎ (fin t < j)).
        limpiar_fuera B (suc n) m.mapa (inicio t) j dentro (omega arith) in
      (
        record { mapa = mapa; tabla = quitar m.tabla id },
        pasos m id t (inicio t) n e (f.0) (f.1),
        refl,
        λ j l u. limpiar_dentro B (suc n) m.mapa (inicio t) j dentro l (omega arith),
        igual,
      )

  -- Where a row t is removed from a table that agrees with its bitmap, and no other row has the
  -- position behind t, what remains of the table agrees with the bitmap that the removal leaves.
  pub eleminar-Valida :
      (m m' : Memoria B) (id : ℤ) (t : TablaSegmento)
      → tam < B.bits
      → Valida B tam m.mapa m.tabla
      → find_segmento_con_id m.tabla id ≡ some t
      → SinVecina t (quitar m.tabla id)
      → eleminar_segmento B m id ≡ ok m'
      → Valida B tam m'.mapa m'.tabla
  unfolding Iguales
  eleminar-Valida m m' id t h v e s k =
      let d = eleminar_segmento_lem m id t h v e in
      let q : d.0 ≡ m' = ok_inj (d.0) m' (sym (d.1) ∙ k) in
      rw (sym q, d.2) (quitada m.mapa d.0.mapa m.tabla id t e (d.4) s v)
