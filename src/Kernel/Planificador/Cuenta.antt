-- ===== src/Kernel/Planificador/Cuenta.antt =====
-- How often a process stands in a queue.
use tp_so20231c.Common.{
  ℕ, ◌+◌, ◌≡◌, refl, sym, List, [], ◌∷◌, Option, none, some, Bool, true, false, ◌==◌, ==_iff, ◌⊎◌,
  inl, inr, arith, if◌then◌else◌,
}
use tp_so20231c.Kernel.Sistema.{push_pcb_estado, e_pop_primer_proceso, pop_blocked}

abbrev pub uno : ℕ → ℕ → ℕ
uno q p = if p == q then 1 else 0

abbrev pub cuenta : ℕ → List ℕ → ℕ
cuenta q [] = 0
cuenta q (p ∷ l) = uno q p + cuenta q l

abbrev pub corre : ℕ → Option ℕ → ℕ
corre q none = 0
corre q (some p) = uno q p

pub cuenta-push :
    (q : ℕ) (l : List ℕ) (p : ℕ) → cuenta q (push_pcb_estado l p) ≡ cuenta q l + uno q p
unfolding push_pcb_estado
cuenta-push q [] p = omega arith
cuenta-push q (x ∷ l) p = omega (arith, cuenta-push q l p)

pub cuenta-pop :
    (q : ℕ) (l : List ℕ) (r : ℕ × List ℕ)
    → e_pop_primer_proceso l ≡ some r
    → cuenta q l ≡ uno q (r.0) + cuenta q (r.1)
unfolding e_pop_primer_proceso
cuenta-pop q [] r e = ground arith
cuenta-pop q (x ∷ l) r e = let h : (x, l) ≡ r = par (x, l) r e in rw (sym h) refl
  where
    par : (a b : ℕ × List ℕ) → Option.some a ≡ some b → a ≡ b
    par a b e = ground arith

hallado :
    (b : Bool) (x : ℕ) (l l' : List ℕ) (o : Option (List ℕ))
    → (if b then some l else elim o [ none ↦ none | some k ↦ some (x ∷ k) ]) ≡ some l'
    → ((b ≡ true) × (l ≡ l')) ⊎ ((k : List ℕ) × (o ≡ some k) × (x ∷ k ≡ l'))
hallado true x l l' o e = inl (refl, ground arith)
hallado false x l l' none e = ground arith
hallado false x l l' (some k) e = inr (k, refl, ground arith)

pub cuenta-pop_blocked :
    (q : ℕ) (l l' : List ℕ) (p : ℕ) → pop_blocked l p ≡ some l' → cuenta q l ≡ uno q p + cuenta q l'
unfolding pop_blocked
cuenta-pop_blocked q [] l' p e = ground arith
cuenta-pop_blocked q (x ∷ l) l' p e = elim (hallado (x == p) x l l' (pop_blocked l p) e) [
  | inl h ↦ rw (sym (h.1), (==_iff x p).0 (h.0)) refl
  | inr h ↦ rw (sym (h.2)) (omega (arith, cuenta-pop_blocked q l (h.0) p (h.1)))
]

falta :
    (b : Bool) (x : ℕ) (l : List ℕ) (o : Option (List ℕ))
    → (if b then some l else elim o [ none ↦ none | some k ↦ some (x ∷ k) ]) ≡ none
    → (b ≡ false) × (o ≡ none)
falta true x l o e = ground arith
falta false x l none e = (refl, refl)
falta false x l (some k) e = ground arith

pub no_estaba : (l : List ℕ) (p : ℕ) → pop_blocked l p ≡ none → cuenta p l ≡ 0
unfolding pop_blocked
no_estaba [] p e = refl
no_estaba (x ∷ l) p e =
    let h = falta (x == p) x l (pop_blocked l p) e in rw (h.0) (omega (arith, no_estaba l p (h.1)))

pub uno_mismo : (p : ℕ) → uno p p ≡ 1
uno_mismo p = ground arith
