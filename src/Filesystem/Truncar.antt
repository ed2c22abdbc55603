-- ===== src/Filesystem/Truncar.antt =====
-- A file that grows from less than two blocks.
use tp_so20231c.Common.{
  ℕ, zero, suc, ◌+◌, ◌*◌, ◌/◌, ◌-◌, ◌<◌, ◌≤◌, ◌≡◌, ◌≢◌, ◌⊎◌, inl, inr, refl, sym, ◌∙◌, ok, bind,
  arith, true, false,
}
use tp_so20231c.Common.Int.{ℤ, pos, ◌-ℤ◌, ltb_ℤ, pos_part}
use native.Mathlib.Nat.{div-lt_iff_lt-mul, le-div_iff_mul-le, div-mul-le_self}
use tp_so20231c.Utils.Segments.{int_eq}
use tp_so20231c.Cpu.Enteros.{div_int}
use tp_so20231c.Memoria.Bitarray.{Bitarray}
use tp_so20231c.Filesystem.{
  Fcb, Disco, proximo_libre, buscar_proximo_bloque_libre, set_bit, agregar_uno, agregar_bloques,
  truncar_archivo,
}

module _ (B : Bitarray) where
  -- The pointer of the block with index k.
  abbrev pub puntero_de : ℕ → Fcb → ℕ
  puntero_de zero f = f.puntero_directo
  puntero_de (suc k) f = f.puntero_indirecto

  -- Block 0 is taken, and the file's block k is block 0.
  pub record Cero (k : ℕ) (d d' : Disco B) : Type 0 where
    pub bloques : d'.archivo_bloques ≡ d.archivo_bloques
    pub primero : B.test d'.bitmap 0 ≡ true
    pub otros : (j : ℕ) → j ≢ 0 → B.test d'.bitmap j ≡ B.test d.bitmap j
    pub puntero : puntero_de k d'.fcb ≡ 0

  abbrev pub con_tamanio : Disco B → ℕ → Disco B
  con_tamanio d n = record d { fcb = record d.fcb { tamanio_archivo = pos n } }

module _ (B : Bitarray) (hay : 0 < B.bits) where
  -- The loop stands at its first test.
  parado : (b : B.Rep) (n : ℕ) → proximo_libre B b n 0 0 0 ≡ 0
  unfolding proximo_libre
  parado b zero = refl
  parado b (suc n) = refl

  pub bloque_cero : (b : B.Rep) → buscar_proximo_bloque_libre B b ≡ 0
  unfolding buscar_proximo_bloque_libre
  bloque_cero b = parado b B.bits

  marca : (b : B.Rep) → set_bit B b (buscar_proximo_bloque_libre B b) ≡ ok (B.set_bit b 0)
  marca b = rw (bloque_cero b) (ground (arith, hay))

  tomado : Disco B → Fcb → Disco B
  tomado d f = record d { bitmap = B.set_bit d.bitmap 0; fcb = f }

  tomado-Cero : (k : ℕ) (d : Disco B) (f : Fcb) → puntero_de B k f ≡ 0 → Cero B k d (tomado d f)
  unfolding tomado
  tomado-Cero k d f e = record {
    bloques = refl;
    primero = B.test-set_bit d.bitmap 0 hay;
    otros = λ j n. B.test-set_bit_ne d.bitmap 0 j hay (λ e. n (sym e));
    puntero = e;
  }

  module _ (block_size : ℤ) where
    un_turno :
        (k : ℕ)
        → k < 2
        → (i : ℕ) (d : Disco B)
        → (d' : Disco B) × (agregar_uno B block_size (pos k) i d ≡ ok d') × Cero B k d d'
    unfolding agregar_uno tomado int_eq
    un_turno zero l i d =
        let f = record d.fcb { puntero_directo = 0 } in
        (
          tomado d f,
          rw (marca d.bitmap, bloque_cero d.bitmap, bind) refl,
          tomado-Cero zero d f refl,
        )
    un_turno (suc zero) l i d =
        let f = record d.fcb { puntero_indirecto = 0 } in
        (tomado d f, rw (marca d.bitmap, bloque_cero d.bitmap, bind) refl, tomado-Cero 1 d f refl)
    un_turno (suc (suc k)) l i d = absurd (omega arith)

    todos :
        (k : ℕ)
        → k < 2
        → (n i : ℕ) (d : Disco B)
        → (d' : Disco B) × (agregar_bloques B block_size (pos k) (suc n) i d ≡ ok d')
          × Cero B k d d'
    unfolding agregar_bloques
    todos k l zero i d = let r = un_turno k l i d in (r.0, rw (r.1, bind) refl, r.2)
    todos k l (suc n) i d =
        let r = un_turno k l i d in
        let q = todos k l n (suc i) (r.0) in
        (
          q.0,
          rw (r.1, bind) (q.1),
          record {
            bloques = q.2.bloques ∙ r.2.bloques;
            primero = q.2.primero;
            otros = λ j h. q.2.otros j h ∙ r.2.otros j h;
            puntero = q.2.puntero;
          },
        )

  -- The loop of a truncation, by the number of blocks to be added.
  crece :
      (b : ℤ) (k : ℕ)
      → k < 2
      → (n : ℕ) (d : Disco B)
      → ((n ≡ 0) × (agregar_bloques B b (pos k) n 0 d ≡ ok d))
        ⊎ ((0 < n) × ((d' : Disco B) × (agregar_bloques B b (pos k) n 0 d ≡ ok d') × Cero B k d d'))
  unfolding agregar_bloques
  crece b k l zero d = inl (refl, refl)
  crece b k l (suc n) d = inr (omega arith, todos b k l n 0 d)

  con_tamanio-Cero :
      (k : ℕ) (d d' : Disco B) (n : ℕ) → Cero B k d d' → Cero B k d (con_tamanio B d' n)
  con_tamanio-Cero zero d d' n c = record {
    bloques = c.bloques;
    primero = c.primero;
    otros = c.otros;
    puntero = c.puntero;
  }
  con_tamanio-Cero (suc k) d d' n c = record {
    bloques = c.bloques;
    primero = c.primero;
    otros = c.otros;
    puntero = c.puntero;
  }

  cociente : (a b : ℕ) → 0 < b → div_int (pos a) (pos b) ≡ ok (pos (a / b))
  unfolding div_int
  cociente a b h = rw (sin a, sin b) (ground arith)
    where
      sin : (x : ℕ) → x + 0 ≡ x
      sin x = omega arith

  diferencia : (x y : ℕ) → pos_part (pos x -ℤ pos y) ≡ x - y
  unfolding ◌-ℤ◌
  diferencia x y = ground arith

  al_truncar :
      (t b n : ℕ) (d : Disco B)
      → d.fcb.tamanio_archivo ≡ pos t
      → 0 < b
      → t < n
      → truncar_archivo B (pos b) (pos n) d
        ≡ bind
            (agregar_bloques B (pos b) (pos (t / b)) (n / b - t / b) 0 d)
            (λ d'. ok (con_tamanio B d' n))
  unfolding truncar_archivo
  al_truncar t b n d e h k =
      let menos : ltb_ℤ (pos n) (pos t) ≡ false = ground arith in
      let mas : ltb_ℤ (pos t) (pos n) ≡ true = ground arith in
      rw (e, cociente t b h, bind)
        (rw (menos, mas) (rw (cociente n b h, bind, diferencia (n / b) (t / b)) refl))

  no_baja : (t b n : ℕ) → 0 < b → t < n → t / b ≤ n / b
  no_baja t b n h k = (le-div_iff_mul-le h).1 (omega (arith, div-mul-le_self t b))

  -- A file of t bytes, less than two blocks of b bytes, that is truncated to more than t: when the
  -- number of blocks grows, block 0 is marked, whether it was free or not, and becomes the file's
  -- direct block (t < b) or its indirect one, whatever the number of blocks asked for; no other bit
  -- and no byte of the blocks changes, and the file has the new size. When the number of blocks
  -- stays, only the size changes.
  pub truncar_archivo_lem :
      (t b n : ℕ) (d : Disco B)
      → d.fcb.tamanio_archivo ≡ pos t
      → t < 2 * b
      → t < n
      → ((n / b ≡ t / b) × (truncar_archivo B (pos b) (pos n) d ≡ ok (con_tamanio B d n)))
        ⊎ ((t / b < n / b)
            × ((d' : Disco B) × (truncar_archivo B (pos b) (pos n) d ≡ ok d')
                × (d'.fcb.tamanio_archivo ≡ pos n)
                × Cero B (t / b) d d'))
  truncar_archivo_lem t b n d e corto crec =
      let h : 0 < b = omega arith in
      let a = al_truncar t b n d e h crec in
      let q : t / b < 2 = (div-lt_iff_lt-mul h).1 corto in
      let m = no_baja t b n h crec in
      elim (crece (pos b) (t / b) q (n / b - t / b) d) [
        | inl r ↦ inl (omega (arith, r.0, m), a ∙ rw (r.1, bind) refl)
        | inr r ↦ inr (
          omega (arith, r.0, m),
          (
            con_tamanio B (r.1.0) n,
            a ∙ rw (r.1.1, bind) refl,
            refl,
            con_tamanio-Cero (t / b) d (r.1.0) n (r.1.2),
          ),
        )
      ]
