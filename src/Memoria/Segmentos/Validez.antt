-- ===== src/Memoria/Segmentos/Validez.antt =====
-- The table of segments agrees with the bitmap, and creation keeps it so.
use tp_so20231c.Common.{
  ℕ, suc, ◌+◌, ◌≤◌, ◌<◌, ◌≡◌, refl, sym, ap, ◌∙◌, List, [], ◌∷◌, ◌++◌, Bool, true, false, not, ok,
  arith, ◌⊎◌, inl, inr, ◌==◌, if◌then◌else◌, Cumple, ok-Cumple, bind-Cumple, exit-Cumple,
  fault-Cumple, if-Cumple, mono-Cumple, length,
}
use mathlib.Core.List.{Memᴰ}
use mathlib.Core.List.Memᴰ.{head, tail}
use tp_so20231c.Common.Int.{ℤ, pos, pos_part, ◌≤ℤ◌, ltb_ℤ, no_menor}
use tp_so20231c.Utils.Header
use tp_so20231c.Utils.Saludo
use tp_so20231c.Utils.Types.{TablaSegmento}
use tp_so20231c.Memoria.Bitarray.{Bitarray}
use tp_so20231c.Memoria.Espacios.{Hueco, vueltas, ocupar_bit_map, marcar}
use tp_so20231c.Memoria.Espacios.Cuenta.{Todos}
use tp_so20231c.Memoria.Espacios.Huecos.{Describe, buscar_segmento_disponible_lem}
use tp_so20231c.Memoria.Espacios.Marcas.{marcar_dentro, marcar_fuera}
use tp_so20231c.Memoria.Segmentos.{
  pueden_guardar, tabla_segmento_crear, Memoria, elegir, buscar_segmento_segun_tamanio,
  create_segmento, crear_nuevo_segmento, PorValor, tabla_con_pid, Segmento,
}

abbrev pub inicio : TablaSegmento → ℕ
inicio t = pos_part t.base

abbrev pub fin : TablaSegmento → ℕ
fin t = pos_part t.base + pos_part t.limite

-- No position belongs to both rows.
abbrev pub Disjuntas : TablaSegmento → TablaSegmento → Type 0
Disjuntas t u = (j : ℕ) → inicio t ≤ j → j < fin t → inicio u ≤ j → j < fin u → ⊥

abbrev pub Separada : TablaSegmento → List TablaSegmento → Type 0
Separada t [] = Unit
Separada t (u ∷ tabla) = Disjuntas t u × Separada t tabla

module _ (B : Bitarray) (tam : ℕ) where
  -- A row whose numbers are not negative, within the memory, all of it occupied.
  abbrev pub Fila : B.Rep → TablaSegmento → Type 0
  Fila b t =
      (t.base ≡ pos (inicio t))
      × (t.limite ≡ pos (pos_part t.limite))
      × (fin t ≤ tam)
      × Todos B b true (inicio t) (fin t)

  abbrev pub Valida : B.Rep → List TablaSegmento → Type 0
  Valida b [] = Unit
  Valida b (t ∷ tabla) = Fila b t × Separada t tabla × Valida b tabla

candidato :
    (b : Bool) (x h : Hueco) (resto : List Hueco)
    → Memᴰ h (if b then x ∷ resto else resto)
    → ((b ≡ true) × (h ≡ x)) ⊎ Memᴰ h resto
candidato true x h resto (head e) = inl (refl, e)
candidato true x h resto (tail m) = inr m
candidato false x h resto m = inr m

pub pueden_guardar_lem :
    (huecos : List Hueco) (size : ℤ) (h : Hueco)
    → Memᴰ h (pueden_guardar huecos size)
    → Memᴰ h huecos × (size ≤ℤ pos h.limite)
unfolding pueden_guardar
pueden_guardar_lem [] size h m = elim m [ ]
pueden_guardar_lem (x ∷ huecos) size h m =
    elim (candidato (not (ltb_ℤ (pos x.limite) size)) x h (pueden_guardar huecos size) m) [
      | inl e ↦ (head (e.1), rw (e.1) (no_menor (pos x.limite) size (e.0)))
      | inr k ↦ let r = pueden_guardar_lem huecos size h k in (tail (r.0), r.1)
    ]

-- The hole that is chosen.
abbrev Elegido : List Hueco → Hueco × List ℕ → Type 0
Elegido huecos r = Memᴰ (r.0) huecos × (r.1 ≡ Header.general ∷ [])

module _ (B : Bitarray) (tam rta : ℕ) where
  hueco_libre :
      (b : B.Rep) (base : ℕ) (huecos : List Hueco) (h : Hueco)
      → Describe B tam b base huecos
      → Memᴰ h huecos
      → (h.base + h.limite ≤ tam) × Todos B b false h.base (h.base + h.limite)
  hueco_libre b base [] h d m = elim m [ ]
  hueco_libre b base (x ∷ huecos) h d (head e) = rw e (d.1, d.3)
  hueco_libre b base (x ∷ huecos) h d (tail m) = hueco_libre b (x.base + x.limite) huecos h (d.5) m

  elegir-Elegido : (huecos : List Hueco) → Cumple (Elegido huecos) (elegir B tam rta huecos)
  unfolding elegir
  elegir-Elegido [] =
      if-Cumple _ (rta == Saludo.hs_aux) _ _ (λ _. fault-Cumple _) (λ _. exit-Cumple _)
  elegir-Elegido (h ∷ []) = ok-Cumple _ (head refl, refl)
  elegir-Elegido (h ∷ x ∷ huecos) = fault-Cumple _

  -- A free stretch of the size that is asked for, within the memory.
  abbrev pub Libre : B.Rep → ℕ → ℕ → Type 0
  Libre b base s = (base + s ≤ tam) × Todos B b false base (base + s)

  buscar-Libre :
      (b : B.Rep) (s : ℕ)
      → Cumple
          (λ r. Libre b r.0.base s × (r.1 ≡ Header.general ∷ []))
          (buscar_segmento_segun_tamanio B tam rta b (pos s))
  unfolding buscar_segmento_segun_tamanio
  buscar-Libre b s =
      let d = buscar_segmento_disponible_lem B tam b in
      rw (d.1, buscar_segmento_segun_tamanio)
        (mono-Cumple _ _ _
          (λ r e.
            let p = pueden_guardar_lem (d.0) (pos s) (r.0) (e.0) in
            let l = hueco_libre b 0 (d.0) (r.0) (d.2) (p.0) in
            ((omega (arith, l.0, p.1), λ j a u. l.1 j a (omega (arith, p.1))), e.1))
          (elegir-Elegido (pueden_guardar (d.0) (pos s))))

module _ (B : Bitarray) where
  marcar_conserva :
      (b : B.Rep) (n base j : ℕ)
      → base + n ≤ B.bits
      → B.test b j ≡ true
      → B.test (marcar B n b base) j ≡ true
  marcar_conserva b n base j h e = elim (donde base n j) [
    | inl d ↦ marcar_dentro B n b base j h (d.0) (d.1)
    | inr f ↦ marcar_fuera B n b base j h f ∙ e
  ]
    where
      donde : (base n j : ℕ) → ((base ≤ j) × (j < base + n)) ⊎ ((j < base) ⊎ (base + n ≤ j))
      donde base n j = ground arith

module _ (B : Bitarray) (tam : ℕ) where
  -- More bits may be occupied than the table knows.
  Valida-mono :
      (b b' : B.Rep) (tabla : List TablaSegmento)
      → ((j : ℕ) → B.test b j ≡ true → B.test b' j ≡ true)
      → Valida B tam b tabla
      → Valida B tam b' tabla
  Valida-mono b b' [] f v = tt
  Valida-mono b b' (t ∷ tabla) f v =
      ((v.0.0, v.0.1, v.0.2, λ j l u. f j (v.0.3 j l u)), v.1, Valida-mono b b' tabla f (v.2))

  choca : {b : Bool} → b ≡ true → b ≡ false → ⊥
  choca h k = ground arith

  -- A row over bits that were free is apart from every row of a table that agrees with the bitmap.
  aparte_de_nueva :
      (b : B.Rep) (t : TablaSegmento) (tabla : List TablaSegmento) (fila : TablaSegmento)
      → Todos B b false (inicio fila) (fin fila)
      → Valida B tam b tabla
      → Separada t tabla
      → Fila B tam b t
      → Separada t (tabla ++ fila ∷ [])
  aparte_de_nueva b t [] fila l v s f = (λ j a c d e. choca (f.3 j a c) (l j d e), tt)
  aparte_de_nueva b t (u ∷ tabla) fila l v s f =
      (s.0, aparte_de_nueva b t tabla fila l (v.2) (s.1) f)

  agregada :
      (b b' : B.Rep) (tabla : List TablaSegmento) (fila : TablaSegmento)
      → ((j : ℕ) → B.test b j ≡ true → B.test b' j ≡ true)
      → Todos B b false (inicio fila) (fin fila)
      → Fila B tam b' fila
      → Valida B tam b tabla
      → Valida B tam b' (tabla ++ fila ∷ [])
  agregada b b' [] fila f l n v = (n, tt, tt)
  agregada b b' (t ∷ tabla) fila f l n v = (
    (v.0.0, v.0.1, v.0.2, λ j a u. f j (v.0.3 j a u)),
    aparte_de_nueva b t tabla fila l (v.2) (v.1) (v.0),
    agregada b b' tabla fila f l n (v.2),
  )

tabla_con_pid-largo :
    (por_valor : PorValor) (tabla : List TablaSegmento) (pid : ℤ)
    → Cumple (λ bs. length bs ≡ length tabla) (tabla_con_pid por_valor tabla pid)
unfolding tabla_con_pid Cumple
tabla_con_pid-largo por_valor [] pid = ok-Cumple _ refl
tabla_con_pid-largo por_valor (t ∷ tabla) pid = bind-Cumple _ (por_valor t) _ λ v e.
    bind-Cumple _ (tabla_con_pid por_valor tabla pid) _
      λ bs d. ok-Cumple _ (ap suc (tabla_con_pid-largo por_valor tabla pid bs d))

-- The row of a new segment, numbered by the length of the whole table.
fila_creada :
    (por_valor : PorValor) (tabla : List TablaSegmento) (pid : ℤ) (seg : Segmento)
    → Cumple
        (λ fila.
          (fila.id ≡ seg.id)
          × (fila.pid ≡ pid)
          × (fila.base ≡ pos seg.base)
          × (fila.limite ≡ seg.limite)
          × (fila.id_seg_pcb ≡ pos (if length tabla == 0 then 0 else length tabla + 1)))
        (tabla_segmento_crear por_valor tabla pid seg)
unfolding tabla_segmento_crear Cumple
fila_creada por_valor tabla pid seg = bind-Cumple _ (tabla_con_pid por_valor tabla pid) _ λ bs e.
    ok-Cumple _ (
      refl,
      refl,
      refl,
      refl,
      ap (λ n. pos (if n == 0 then 0 else n + 1)) (tabla_con_pid-largo por_valor tabla pid bs e),
    )

module _ (B : Bitarray) (tam rta : ℕ) where
  -- What `crear_nuevo_segmento` leaves behind for a size s.
  abbrev pub Creado : Memoria B → ℤ → ℕ → ℤ → Memoria B × TablaSegmento × List ℕ → Type 0
  Creado m id s pid r =
      (base : ℕ) × Libre B tam rta m.mapa base s
      × (r.0.mapa ≡ ocupar_bit_map B m.mapa base (pos s))
      × (r.0.tabla ≡ m.tabla ++ r.1 ∷ [])
      × (r.1.id ≡ id)
      × (r.1.pid ≡ pid)
      × (r.1.base ≡ pos base)
      × (r.1.limite ≡ pos s)
      × (r.2 ≡ Header.general ∷ [])
      × (r.1.id_seg_pcb ≡ pos (if length m.tabla == 0 then 0 else length m.tabla + 1))

  crear-Creado :
      (por_valor : PorValor) (m : Memoria B) (id pid : ℤ) (s : ℕ)
      → Cumple (Creado m id s pid) (crear_nuevo_segmento B tam rta por_valor m id (pos s) pid)
  unfolding crear_nuevo_segmento create_segmento Cumple
  crear-Creado por_valor m id pid s = bind-Cumple _ (tabla_con_pid por_valor m.tabla pid) _ λ bs d.
      bind-Cumple _ (create_segmento B tam rta m.mapa id (pos s)) _ λ r e.
        let h =
          bind-Cumple
            (λ x.
              Libre B tam rta m.mapa x.1.base s
              × (x.0 ≡ ocupar_bit_map B m.mapa x.1.base (pos s))
              × (x.1.id ≡ id)
              × (x.1.limite ≡ pos s)
              × (x.2 ≡ Header.general ∷ []))
            (buscar_segmento_segun_tamanio B tam rta m.mapa (pos s)) _
            (λ x d.
              let l = buscar-Libre B tam rta m.mapa s x d in
              ok-Cumple _ (l.0, refl, refl, refl, l.1))
            r e in
        bind-Cumple _ (tabla_segmento_crear por_valor m.tabla pid (r.1)) _ λ fila g.
          let f = fila_creada por_valor m.tabla pid (r.1) fila g in
          ok-Cumple _ (r.1.base, h.0, h.1, refl, f.0 ∙ h.2, f.1, f.2, f.3 ∙ h.3, h.4, f.4)

  -- A creation of a segment of s bytes that succeeds in a memory whose table agrees with its bitmap
  -- (rows within the memory, pairwise disjoint, on occupied bits) appends one row with the number and
  -- the process asked for, whatever `tablaConPid` reads for the rows that are there. Its s positions
  -- lie within the memory and were all free, the kernel is sent one `header_general`, and the new
  -- table agrees with the new bitmap. Its number within the process counts the rows of all.
  pub crear_nuevo_segmento_lem :
      (por_valor : PorValor) (m : Memoria B) (id pid : ℤ) (s : ℕ)
      (r : Memoria B × TablaSegmento × List ℕ)
      → tam < B.bits
      → Valida B tam m.mapa m.tabla
      → crear_nuevo_segmento B tam rta por_valor m id (pos s) pid ≡ ok r
      → Creado m id s pid r × Valida B tam r.0.mapa r.0.tabla
  unfolding Cumple ocupar_bit_map vueltas
  crear_nuevo_segmento_lem por_valor m id pid s r h v e =
      let c = crear-Creado por_valor m id pid s r e in
      let i : inicio (r.1) ≡ c.0 = ap pos_part (c.6) in
      let k : pos_part r.1.limite ≡ s = ap pos_part (c.7) in
      let g : fin (r.1) ≡ c.0 + s = omega (arith, i, k) in
      let dentro : c.0 + suc s ≤ B.bits = omega (arith, c.1.0) in
      (
        c,
        rw (c.2, c.3)
            (agregada B tam m.mapa (marcar B (suc s) m.mapa (c.0)) m.tabla (r.1)
              (λ j. marcar_conserva B m.mapa (suc s) (c.0) j dentro)
              (λ j a u. c.1.1 j (omega (arith, i)) (omega (arith, g)))
              (
                c.6 ∙ ap pos (sym i),
                c.7 ∙ ap pos (sym k),
                omega (arith, g, c.1.0),
                λ j a u.
                    marcar_dentro B (suc s) m.mapa (c.0) j dentro (omega (arith, i))
                      (omega (arith, g)),
              )
              v),
      )
