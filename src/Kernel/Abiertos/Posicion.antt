-- ===== src/Kernel/Abiertos/Posicion.antt =====
-- The position that a process sets is the one that its next request carries.
use tp_so20231c.Common.{
  ℕ, ◌≡◌, ◌≢◌, refl, sym, ap, ◌∙◌, List, [], ◌∷◌, ◌++◌, Option, none, some, Bool, true, false,
  Bool-cases, Outcome, ok, fault, Text, str_eq, str_eq_iff, ◌==◌, ==_iff, if◌then◌else◌, arith, inl,
  inr, Option-cases,
}
use tp_so20231c.Common.Int.{ℤ}
use tp_so20231c.Utils.Types.{RtaKernelFs}
use tp_so20231c.Utils.Buffer.{pattern32}
use tp_so20231c.Kernel.Abiertos.{
  Abierto, Entradas, buscar, sacar, con_entrada, Tablas, mover_puntero, pedir_archivo,
}

distinto : (n m : Text) → n ≢ m → str_eq n m ≡ false
distinto n m h = elim (Bool-cases (str_eq n m)) [
  | inl e ↦ absurd (h ((str_eq_iff n m).0 e))
  | inr e ↦ e
]

-- Entries with the same names.
abbrev MismosNombres : Entradas → Entradas → Type 0
MismosNombres o o' = (p : ℕ) → (o' p).archivo ≡ (o p).archivo

buscar_igual :
    (o o' : Entradas) (tabla : List ℕ) (n : Text)
    → MismosNombres o o'
    → buscar o' tabla n ≡ buscar o tabla n
unfolding buscar
buscar_igual o o' [] n h = refl
buscar_igual o o' (p ∷ tabla) n h = rw (h p, buscar_igual o o' tabla n h) refl

movida_nombres :
    (o : Entradas) (p : ℕ) (z : ℤ)
    → MismosNombres o (con_entrada o p (record (o p) { posicion_puntero = z }))
unfolding con_entrada
movida_nombres o p z q = elim (Bool-cases (q == p)) [
  | inl e ↦ rw e (ap (λ x. (o x).archivo) (sym ((==_iff q p).0 e)))
  | inr e ↦ rw e refl
]

escrita : (o : Entradas) (p : ℕ) (a : Abierto) → con_entrada o p a p ≡ a
unfolding con_entrada
escrita o p a = let e : (p == p) ≡ true = ground arith in rw e refl

no_escrita : (o : Entradas) (p q : ℕ) (a : Abierto) → q ≢ p → con_entrada o p a q ≡ o q
unfolding con_entrada
no_escrita o p q a h = let e : (q == p) ≡ false = ground arith in rw e refl

nombre_hallado :
    (o : Entradas) (tabla : List ℕ) (n : Text) (p : ℕ)
    → buscar o tabla n ≡ some p
    → n ≡ (o p).archivo
unfolding buscar
nombre_hallado o [] n p h = ground arith
nombre_hallado o (x ∷ tabla) n p h = elim (Bool-cases (str_eq n (o x).archivo)) [
  | inl e ↦
      let k : x ≡ p = uno (str_eq n (o x).archivo) x p (buscar o tabla n) e h in
      (str_eq_iff n (o x).archivo).0 e ∙ ap (λ q. (o q).archivo) k
  | inr e ↦ nombre_hallado o tabla n p (otro (str_eq n (o x).archivo) x p (buscar o tabla n) e h)
]
  where
    uno :
        (b : Bool) (x p : ℕ) (r : Option ℕ) → b ≡ true → (if b then some x else r) ≡ some p → x ≡ p
    uno b x p r e h = ground arith

    otro :
        (b : Bool) (x p : ℕ) (r : Option ℕ)
        → b ≡ false
        → (if b then some x else r) ≡ some p
        → r ≡ some p
    otro b x p r e h = ground arith

abbrev o_bien : Option ℕ → Option ℕ → Option ℕ
o_bien none r = r
o_bien (some q) r = some q

buscar_al_final :
    (o : Entradas) (tabla : List ℕ) (p : ℕ) (n : Text)
    → buscar o (tabla ++ p ∷ []) n ≡ o_bien (buscar o tabla n) (buscar o (p ∷ []) n)
unfolding buscar
buscar_al_final o [] p n = refl
buscar_al_final o (x ∷ tabla) p n = elim (Bool-cases (str_eq n (o x).archivo)) [
  | inl e ↦ rw e refl
  | inr e ↦ rw e (buscar_al_final o tabla p n)
]

buscar_otro :
    (o : Entradas) (tabla : List ℕ) (n m : Text)
    → m ≢ n
    → buscar o (sacar o tabla n) m ≡ buscar o tabla m
unfolding buscar sacar
buscar_otro o [] n m h = refl
buscar_otro o (x ∷ tabla) n m h = elim (Bool-cases (str_eq n (o x).archivo)) [
  | inl e ↦
      let k : str_eq m (o x).archivo ≡ false =
        distinto m (o x).archivo (λ q. h (q ∙ sym ((str_eq_iff n (o x).archivo).0 e))) in
      rw (e, k) refl
  | inr e ↦ rw (e, buscar_otro o tabla n m h) refl
]

sacar_igual :
    (o o' : Entradas) (tabla : List ℕ) (n : Text)
    → MismosNombres o o'
    → sacar o' tabla n ≡ sacar o tabla n
unfolding sacar
sacar_igual o o' [] n h = refl
sacar_igual o o' (p ∷ tabla) n h = rw (h p, sacar_igual o o' tabla n h) refl

-- The request at an entry.
abbrev pedido : Text → ℤ → ℤ → ℤ → Abierto → Outcome RtaKernelFs
pedido archivo dir size pid a = ok (record {
  size = size;
  direccion_fisica = dir;
  nombre_archivo = archivo;
  pid = pid;
  puntero = pattern32 a.posicion_puntero;
})

module _ (t : Tablas) (archivo : Text) (z : ℤ) (p : ℕ)
    (h : buscar t.entradas t.tabla_de_archivos archivo ≡ some p) where
  abbrev movidas : Entradas
  movidas = con_entrada t.entradas p (record (t.entradas p) { posicion_puntero = z })

  abbrev movida : Tablas
  movida = record t {
    entradas = movidas;
    tabla_de_archivos = sacar movidas t.tabla_de_archivos archivo ++ p ∷ [];
  }

  nombre : archivo ≡ (t.entradas p).archivo
  nombre = nombre_hallado t.entradas t.tabla_de_archivos archivo p h

  en_movida :
      (m : Text)
      → buscar movidas (sacar movidas t.tabla_de_archivos archivo ++ p ∷ []) m
        ≡ o_bien
            (buscar t.entradas (sacar t.entradas t.tabla_de_archivos archivo) m)
            (buscar t.entradas (p ∷ []) m)
  en_movida m =
      let n = movida_nombres t.entradas p z in
      ap (λ l. buscar movidas (l ++ p ∷ []) m)
        (sacar_igual t.entradas movidas t.tabla_de_archivos archivo n)
      ∙ buscar_igual t.entradas movidas (sacar t.entradas t.tabla_de_archivos archivo ++ p ∷ []) m n
      ∙ buscar_al_final t.entradas (sacar t.entradas t.tabla_de_archivos archivo) p m

  el_movido :
      buscar t.entradas (sacar t.entradas t.tabla_de_archivos archivo) archivo ≡ none
      → buscar movidas (sacar movidas t.tabla_de_archivos archivo ++ p ∷ []) archivo ≡ some p
  unfolding buscar
  el_movido k =
      en_movida archivo ∙ rw (k, (str_eq_iff archivo (t.entradas p).archivo).1 nombre) refl

  los_demas :
      (m : Text)
      → m ≢ archivo
      → buscar movidas (sacar movidas t.tabla_de_archivos archivo ++ p ∷ []) m
        ≡ buscar t.entradas t.tabla_de_archivos m
  unfolding buscar
  los_demas m d =
      let e : str_eq m (t.entradas p).archivo ≡ false =
        distinto m (t.entradas p).archivo (λ q. d (q ∙ sym nombre)) in
      en_movida m
      ∙ rw (e, buscar_otro t.entradas t.tabla_de_archivos archivo m d)
          (o_bien_none (buscar t.entradas t.tabla_de_archivos m))
    where
      o_bien_none : (r : Option ℕ) → o_bien r none ≡ r
      o_bien_none none = refl
      o_bien_none (some q) = refl

  mismo_pedido :
      (m : Text) (dir size pid : ℤ)
      → m ≢ archivo
      → pedir_archivo m dir size pid movida ≡ pedir_archivo m dir size pid t
  unfolding pedir_archivo
  mismo_pedido m dir size pid d = elim (Option-cases (buscar t.entradas t.tabla_de_archivos m)) [
    | inl e ↦
        let antes : pedir_archivo m dir size pid t ≡ fault = rw (e, pedir_archivo) refl in
        let despues : pedir_archivo m dir size pid movida ≡ fault =
          rw (los_demas m d ∙ e, pedir_archivo) refl in
        despues ∙ sym antes
    | inr e ↦
        let q : e.0 ≢ p = λ k. d (
          nombre_hallado t.entradas t.tabla_de_archivos m (e.0) (e.1)
          ∙ ap (λ x. (t.entradas x).archivo) k
          ∙ sym nombre) in
        let antes : pedir_archivo m dir size pid t ≡ pedido m dir size pid (t.entradas (e.0)) =
          rw (e.1, pedir_archivo) refl in
        let despues : pedir_archivo m dir size pid movida ≡ pedido m dir size pid (movidas (e.0)) =
          rw (los_demas m d ∙ e.1, pedir_archivo) refl in
        despues
        ∙ ap (pedido m dir size pid)
            (no_escrita t.entradas p (e.0) (record (t.entradas p) { posicion_puntero = z }) q)
        ∙ sym antes
  ]

-- A process moves the pointer of a file that it has open once. Its next request for the file
-- carries that position, in 32 bits; its requests for other files are what they were; and the
-- entry, which the global list shares, has the position too.
pub posicion_pedida :
    (t : Tablas) (archivo : Text) (z dir size pid : ℤ) (p : ℕ)
    → buscar t.entradas t.tabla_de_archivos archivo ≡ some p
    → buscar t.entradas (sacar t.entradas t.tabla_de_archivos archivo) archivo ≡ none
    → (t' : Tablas) × (mover_puntero archivo z t ≡ ok t')
      × (pedir_archivo archivo dir size pid t'
          ≡ ok (record {
            size = size;
            direccion_fisica = dir;
            nombre_archivo = archivo;
            pid = pid;
            puntero = pattern32 z;
          }))
      × ((m : Text)
          → m ≢ archivo
          → pedir_archivo m dir size pid t' ≡ pedir_archivo m dir size pid t)
      × (t'.lista_global_archivos ≡ t.lista_global_archivos)
      × ((t'.entradas p).posicion_puntero ≡ z)
unfolding mover_puntero pedir_archivo
posicion_pedida t archivo z dir size pid p h k =
    let e = escrita t.entradas p (record (t.entradas p) { posicion_puntero = z }) in
    (
      movida t archivo z p h,
      rw (h, mover_puntero) refl,
      rw (el_movido t archivo z p h k, pedir_archivo) (rw e refl),
      λ m d. mismo_pedido t archivo z p h m dir size pid d,
      refl,
      ap (λ x. x.posicion_puntero) e,
    )
