-- ===== src/Kernel/Recursos/Leyes.antt =====
-- What the search for a resource finds, and how often it is granted.
use tp_so20231c.Common.{
  ℕ, zero, suc, ◌+◌, ◌<◌, ◌≡◌, ◌≢◌, refl, ap, ◌∙◌, List, [], ◌∷◌, Option, none, some, Bool, true,
  false, Bool-cases, arith, Text, str_eq, str_eq_iff, get_elem?, set, length, get_elem?-set_self,
  ◌⊎◌, inl, inr,
}
use tp_so20231c.Common.Int.{ℤ, pos, negsuc, ◌-ℤ◌, ltb_ℤ}
use tp_so20231c.Kernel.Recursos.{buscar_posicion_desde, buscar_posicion_recurso, hay_elementos_wait}

-- `k` is the first place of the name.
abbrev pub Primera : List Text → Text → ℕ → Type 0
Primera rs r k = (get_elem? rs k ≡ some r) × ((j : ℕ) → j < k → get_elem? rs j ≢ some r)

otra :
    (x r : Text) (rs : List Text) (j : ℕ)
    → x ≢ r
    → ((i : ℕ) → j ≡ suc i → get_elem? rs i ≢ some r)
    → get_elem? (x ∷ rs) j ≢ some r
otra x r rs zero n h e = n (some_inj x r e)
  where
    some_inj : (x y : Text) → Option.some x ≡ some y → x ≡ y
    some_inj x y e = ground arith
otra x r rs (suc j) n h e = h j refl e

no_es : (x r : Text) → str_eq x r ≡ false → x ≢ r
no_es x r h e = choca _ ((str_eq_iff x r).1 e) h
  where
    choca : (b : Bool) → b ≡ true → b ≡ false → ⊥
    choca b h k = ground arith

desde_lem :
    (i : ℕ) (rs : List Text) (r : Text)
    → ((k : ℕ) × (buscar_posicion_desde i rs r ≡ pos (i + k)) × Primera rs r k)
      ⊎ ((buscar_posicion_desde i rs r ≡ negsuc 0) × ((j : ℕ) → get_elem? rs j ≢ some r))
unfolding buscar_posicion_desde
desde_lem i [] r = inr (refl, λ j e. ground arith)
desde_lem i (x ∷ rs) r = elim (Bool-cases (str_eq x r)) [
  | inl e ↦ inl (
    0,
    rw (e, mas i) refl,
    (ap (λ t. some t) ((str_eq_iff x r).0 e), λ j l. absurd (omega arith)),
  )
  | inr e ↦ elim (desde_lem (suc i) rs r) [
    | inl h ↦ inl (
      suc (h.0),
      rw e (h.1 ∙ ap pos (sigue i (h.0))),
      (h.2.0, λ j l. otra x r rs j (no_es x r e) (λ m q. h.2.1 m (omega (arith, q)))),
    )
    | inr h ↦ inr (rw e (h.0), λ j. otra x r rs j (no_es x r e) (λ m q. h.1 m))
  ]
]
  where
    mas : (i : ℕ) → i + 0 ≡ i
    mas i = omega arith

    sigue : (i k : ℕ) → suc i + k ≡ i + suc k
    sigue i k = omega arith

-- The position of a resource is the first place of its name among the resources, or -1 when the
-- name is none of theirs.
pub buscar_posicion_recurso_lem :
    (rs : List Text) (r : Text)
    → ((k : ℕ) × (buscar_posicion_recurso rs r ≡ pos k) × Primera rs r k)
      ⊎ ((buscar_posicion_recurso rs r ≡ negsuc 0) × ((j : ℕ) → get_elem? rs j ≢ some r))
unfolding buscar_posicion_recurso
buscar_posicion_recurso_lem rs r = elim (desde_lem 0 rs r) [
  | inl h ↦ inl (h.0, h.1 ∙ ap pos (cero (h.0)), h.2)
  | inr h ↦ inr h
]
  where
    cero : (k : ℕ) → 0 + k ≡ k
    cero k = omega arith

-- `k` calls in a row that are all granted, and the instances after them.
abbrev pub otorgadas : ℕ → List ℤ → ℕ → Option (List ℤ)
otorgadas zero instancias p = some instancias
otorgadas (suc k) instancias p = elim (hay_elementos_wait instancias p) [
  | none ↦ none
  | some r ↦ elim (r.0) [ pos _ ↦ otorgadas k (r.1) p | negsuc _ ↦ none ]
]

set-set : (xs : List ℤ) (i : ℕ) (a b : ℤ) → set (set xs i a) i b ≡ set xs i b
set-set [] i a b = refl
set-set (x ∷ xs) zero a b = refl
set-set (x ∷ xs) (suc i) a b = ap (λ ys. x ∷ ys) (set-set xs i a b)

dentro : (xs : List ℤ) (i : ℕ) (a : ℤ) → get_elem? xs i ≡ some a → i < length xs
dentro [] i a h = ground arith
dentro (x ∷ xs) zero a h = omega arith
dentro (x ∷ xs) (suc i) a h = omega (arith, dentro xs i a h)

un_wait :
    (instancias : List ℤ) (p : ℕ) (a b : ℤ)
    → get_elem? instancias p ≡ some a
    → ltb_ℤ a (pos 0) ≡ false
    → a -ℤ pos 1 ≡ b
    → hay_elementos_wait instancias p ≡ some (pos 1, set instancias p b)
unfolding hay_elementos_wait
un_wait instancias p a b h l e = rw (h, hay_elementos_wait) (rw (l, e) refl)

uno_menos : (n : ℕ) → pos (suc n) -ℤ pos 1 ≡ pos n
unfolding ◌-ℤ◌
uno_menos n = ground arith

todas :
    (n : ℕ) (instancias : List ℤ) (p : ℕ)
    → get_elem? instancias p ≡ some (pos n)
    → otorgadas (suc n) instancias p ≡ some (set instancias p (negsuc 0))
unfolding ◌-ℤ◌
todas zero instancias p h = rw (un_wait instancias p (pos 0) (negsuc 0) h refl refl, otorgadas) refl
todas (suc n) instancias p h =
    rw (un_wait instancias p (pos (suc n)) (pos n) h (ground arith) (uno_menos n), otorgadas)
      (todas n (set instancias p (pos n)) p
          (get_elem?-set_self instancias p (pos n) (dentro instancias p (pos (suc n)) h))
        ∙ ap (λ xs. some xs) (set-set instancias p (pos n) (negsuc 0)))

-- A resource with n instances is granted n + 1 times, one more than there are; the wait behind
-- those is refused and changes nothing.
pub wait_de_mas :
    (instancias : List ℤ) (p n : ℕ)
    → get_elem? instancias p ≡ some (pos n)
    → (otorgadas (suc n) instancias p ≡ some (set instancias p (negsuc 0)))
      × (hay_elementos_wait (set instancias p (negsuc 0)) p
          ≡ some (negsuc 0, set instancias p (negsuc 0)))
unfolding hay_elementos_wait
wait_de_mas instancias p n h = (
  todas n instancias p h,
  rw
      (
        get_elem?-set_self instancias p (negsuc 0) (dentro instancias p (pos n) h),
        hay_elementos_wait,
      )
      refl,
)
