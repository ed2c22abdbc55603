-- ===== src/Cpu/Decode/Direcciones.antt =====
-- Logical addresses: what `traducir` finds, and what F_READ and F_WRITE tell the kernel.
use tp_so20231c.Common.{
  ℕ, suc, ◌↔◌, ◌/◌, ◌%◌, ◌≡◌, ◌≢◌, refl, ◌⊎◌, inl, inr, List, [], ◌∷◌, Option, none, some, Bool,
  Bool-cases, sym, ap, ◌∙◌, true, false, not, Outcome, ok, bind, Text, arith, if◌then◌else◌, Cumple,
  ok-Cumple, bind-Cumple, if-Cumple,
}
use mathlib.Core.List.{Memᴰ}
use mathlib.Core.List.Memᴰ.{head, tail}
use tp_so20231c.Common.Int.{ℤ, pos, ◌+ℤ◌, ◌≤ℤ◌, ltb_ℤ, no_menor}
use tp_so20231c.Utils.Flag
use tp_so20231c.Utils.Types.{CpuResponse, Instruccion, TablaSegmento}
use tp_so20231c.Utils.Segments.{int_eq, int_eq_eq, eq_int_eq}
use tp_so20231c.Cpu.Enteros.{atoi, suma_int, div_int, mod_int}
use tp_so20231c.Cpu.Decode.{
  desreferenciar, encontrar_segmento, encontrar_segmento_desde, traducir, caso_f_read_write,
}

-- No two rows of a table have the same number.
abbrev pub IdsUnicos : List TablaSegmento → Type 0
IdsUnicos tabla = (t u : TablaSegmento) → Memᴰ t tabla → Memᴰ u tabla → t.id ≡ u.id → t ≡ u

encontrado :
    (hallado : Option TablaSegmento) (tabla : List TablaSegmento) (num : ℤ) (s : TablaSegmento)
    → encontrar_segmento_desde hallado tabla num ≡ some s
    → (hallado ≡ some s) ⊎ (Memᴰ s tabla × (s.id ≡ num))
unfolding encontrar_segmento_desde
encontrado hallado [] num s h = inl h
encontrado hallado (t ∷ tabla) num s h = elim (Bool-cases (int_eq t.id num)) [
  | inl e ↦ elim (encontrado (some t) tabla num s (rw (sym (elegido e)) h)) [
    | inl u ↦ inr (head (sym (some_inj u)), ap (λ x. x.id) (sym (some_inj u)) ∙ int_eq_eq _ _ e)
    | inr m ↦ inr (tail (m.0), m.1)
  ]
  | inr e ↦ elim (encontrado hallado tabla num s (rw (sym (dejado e)) h)) [
    | inl u ↦ inl u
    | inr m ↦ inr (tail (m.0), m.1)
  ]
]
  where
    elegido : int_eq t.id num ≡ true → (if int_eq t.id num then some t else hallado) ≡ some t
    elegido e = ground arith

    dejado : int_eq t.id num ≡ false → (if int_eq t.id num then some t else hallado) ≡ hallado
    dejado e = ground arith

    some_inj : {x y : TablaSegmento} → some x ≡ some y → x ≡ y
    some_inj e = ground arith

-- The row is found wherever it stands, when no other has its number.
encuentra :
    (hallado : Option TablaSegmento) (tabla : List TablaSegmento) (num : ℤ) (s : TablaSegmento)
    → s.id ≡ num
    → ((t : TablaSegmento) → Memᴰ t tabla → t.id ≡ num → t ≡ s)
    → (hallado ≡ some s) ⊎ Memᴰ s tabla
    → encontrar_segmento_desde hallado tabla num ≡ some s
unfolding encontrar_segmento_desde
encuentra hallado [] num s h u (inl e) = e
encuentra hallado [] num s h u (inr m) = elim m [ ]
encuentra hallado (t ∷ tabla) num s h u d =
    encuentra (if int_eq t.id num then some t else hallado) tabla num s h (λ x m. u x (tail m))
      (elim (Bool-cases (int_eq t.id num)) [
        | inl e ↦ inl (
            ap (λ b. if b then some t else hallado) e
            ∙ ap (λ x. some x) (u t (head refl) (int_eq_eq _ _ e)))
        | inr e ↦ elim d [
          | inl k ↦ inl (ap (λ b. if b then some t else hallado) e ∙ k)
          | inr m ↦ elim m [
            | head k ↦ absurd (distinto (eq_int_eq _ _ (ap (λ x. x.id) (sym k) ∙ h)) e)
            | tail k ↦ inr k
          ]
        ]
      ])
  where
    distinto : {b : Bool} → b ≡ true → b ≡ false → ⊥
    distinto e k = ground arith

division :
    (n m : ℕ)
    → (div_int (pos n) (pos (suc m)) ≡ ok (pos (n / suc m)))
      × (mod_int (pos n) (pos (suc m)) ≡ ok (pos (n % suc m)))
unfolding div_int mod_int
division n m = ground arith

-- The steps of `traducir` on an address and a segment size that are not negative.
traducir_pasos :
    (tam d : Text) (tabla : List TablaSegmento) (n m : ℕ)
    → atoi tam ≡ pos (suc m)
    → atoi d ≡ pos n
    → traducir tam tabla (some d)
      ≡ bind
          (desreferenciar (encontrar_segmento tabla (pos (n / suc m))))
          (λ seg. ok (seg, pos (n % suc m)))
unfolding traducir
traducir_pasos tam d tabla n m ht hd = rw (ht, hd, (division n m).0, (division n m).1) refl

-- With a `tam_max_segmento` and a logical address n that `atoi` makes a positive and a not negative
-- `int` of, and rows of different numbers, the address comes to a row and an offset exactly when the row is in the table, its number is n
-- divided by the size, and the offset is the remainder. No address comes to two rows, and no row
-- that the address names is missed.
pub traducir_lem :
    (tam d : Text) (tabla : List TablaSegmento) (n m : ℕ) (seg : TablaSegmento) (despl : ℤ)
    → atoi tam ≡ pos (suc m)
    → atoi d ≡ pos n
    → IdsUnicos tabla
    → (traducir tam tabla (some d) ≡ ok (seg, despl))
      ↔ (Memᴰ seg tabla × (seg.id ≡ pos (n / suc m)) × (despl ≡ pos (n % suc m)))
unfolding encontrar_segmento
traducir_lem tam d tabla n m seg despl ht hd u = (
  λ h. ida _ refl (sym (traducir_pasos tam d tabla n m ht hd) ∙ h),
  λ r.
      traducir_pasos tam d tabla n m ht hd
      ∙ rw
          (
            encuentra none tabla (pos (n / suc m)) seg (r.1)
                (λ t k e. u t seg k (r.0) (e ∙ sym (r.1))) (inr (r.0)),
            r.2,
          )
          refl,
)
  where
    mismo :
        (s : TablaSegmento)
        → ◌≡◌ {A = Outcome (TablaSegmento × ℤ)} (ok (s, pos (n % suc m))) (ok (seg, despl))
        → (s ≡ seg) × (pos (n % suc m) ≡ despl)
    mismo s e = ground arith

    ida :
        (o : Option TablaSegmento)
        → encontrar_segmento_desde none tabla (pos (n / suc m)) ≡ o
        → bind {B = TablaSegmento × ℤ} (desreferenciar o) (λ s. ok (s, pos (n % suc m)))
          ≡ ok (seg, despl)
        → Memᴰ seg tabla × (seg.id ≡ pos (n / suc m)) × (despl ≡ pos (n % suc m))
    ida none e h = ground arith
    ida (some s) e h = elim (encontrado none tabla (pos (n / suc m)) s e) [
      | inl k ↦ ground arith
      | inr k ↦ rw (sym (mismo s h).0) (k.0, k.1, sym (mismo s h).1)
    ]

-- What F_READ and F_WRITE tell the kernel of an address: a fault, or the place of the whole access.
-- Where the sum of offset and size is no `int`, the check is made on what is left of it.
abbrev pub Ubica : ℕ → Text → CpuResponse → Instruccion → CpuResponse → Type 0
Ubica flag tam info i info' =
    (info'.flag ≡ Flag.seg_fault)
    ⊎ ((info'.flag ≡ flag)
        × (tercero : Text) × (seg : TablaSegmento) × (despl : ℤ) × (i.parametro3 ≡ some tercero)
        × (i.parametro1 ≡ some info'.archivo)
        × (info'.size_segmento ≡ atoi tercero)
        × (traducir tam info.tabla_segmentos i.parametro2 ≡ ok (seg, despl))
        × (info'.direccion_fisica ≡ seg.base +ℤ despl)
        × (suma_int despl info'.size_segmento ≤ℤ seg.limite)
        × ((despl +ℤ info'.size_segmento ≤ℤ seg.limite)
            ⊎ (suma_int despl info'.size_segmento ≢ despl +ℤ info'.size_segmento)))

dentro : (a b l : ℤ) → suma_int a b ≤ℤ l → (a +ℤ b ≤ℤ l) ⊎ (suma_int a b ≢ a +ℤ b)
dentro a b l h = elim (Bool-cases (int_eq (suma_int a b) (a +ℤ b))) [
  | inl e ↦ inl (rw (int_eq_eq _ _ e) at h)
  | inr e ↦ inr (λ k. distinto (eq_int_eq _ _ k) e)
]
  where
    distinto : {b : Bool} → b ≡ true → b ≡ false → ⊥
    distinto e k = ground arith

hay : (o : Option Text) (t : Text) → desreferenciar o ≡ ok t → o ≡ some t
hay none t e = ground arith
hay (some u) t e = ground arith

pub caso_f_read_write-Ubica :
    (flag : ℕ) (tam : Text) (info : CpuResponse) (i : Instruccion)
    → Cumple (λ r. Ubica flag tam info i (r.0)) (caso_f_read_write flag tam info i)
unfolding caso_f_read_write
caso_f_read_write-Ubica flag tam info i = bind-Cumple _ (desreferenciar i.parametro1) _ λ archivo a.
    bind-Cumple _ (desreferenciar i.parametro3) _ λ tercero c3.
      bind-Cumple _ (traducir tam info.tabla_segmentos i.parametro2) _ λ t e.
        if-Cumple _ (not (ltb_ℤ t.0.limite (suma_int t.1 (atoi tercero)))) _ _
          (λ c. ok-Cumple _ (
            inr (
              refl,
              tercero,
              t.0,
              t.1,
              hay i.parametro3 tercero c3,
              hay i.parametro1 archivo a,
              refl,
              e,
              refl,
              no_menor (t.0.limite) (suma_int t.1 (atoi tercero)) c,
              dentro t.1 (atoi tercero) (t.0.limite)
                  (no_menor (t.0.limite) (suma_int t.1 (atoi tercero)) c),
            )))
          (λ _. ok-Cumple _ (inl refl))
