-- ===== src/Kernel/Archivos/Turnos/Nombres.antt =====
-- The directory of the filesystem: what a name is saved with is found under it.
use tp_so20231c.Common.{
  ◌≡◌, ◌≢◌, refl, ap, sym, ◌∙◌, [], ◌∷◌, ◌++◌, Bool, true, false, Bool-cases, Option, none, some,
  arith, if◌then◌else◌, inl, inr, Text, str_eq, str_eq_iff,
}
use tp_so20231c.Filesystem.{Fcb}
use tp_so20231c.Filesystem.Servidor.{Directorio, fcb_de, guardar}

igual : (n : Text) → str_eq n n ≡ true
igual n = (str_eq_iff n n).1 refl

distinto : (n m : Text) → m ≢ n → str_eq n m ≡ false
distinto n m h = elim (Bool-cases (str_eq n m)) [
  | inl e ↦ absurd (h (sym ((str_eq_iff n m).0 e)))
  | inr e ↦ e
]

-- The values that a name is saved with are found under it, and all others are as they were.
pub guardado :
    (dir : Directorio) (n : Text) (f : Fcb)
    → (fcb_de (guardar dir n f) n ≡ some f)
      × ((m : Text) → m ≢ n → fcb_de (guardar dir n f) m ≡ fcb_de dir m)
unfolding fcb_de guardar
guardado [] n f = (rw (igual n) refl, λ m h. rw (distinto n m h) refl)
guardado (x ∷ dir) n f =
    let r = guardado dir n f in
    elim (Bool-cases (str_eq (x.0) n)) [
      | inl e ↦ rw e (
        rw (igual n) refl,
        λ m h. rw (distinto n m h, distinto (x.0) m (λ q. h (q ∙ (str_eq_iff (x.0) n).0 e))) refl,
      )
      | inr e ↦
          rw e (rw (e) (r.0), λ m h. ap (λ o. if str_eq (x.0) m then some (x.1) else o) (r.1 m h))
    ]

-- A new name comes last.
pub nuevo_al_final :
    (dir : Directorio) (n : Text) (f : Fcb)
    → fcb_de dir n ≡ none
    → guardar dir n f ≡ dir ++ (n, f) ∷ []
unfolding fcb_de guardar
nuevo_al_final [] n f h = refl
nuevo_al_final (x ∷ dir) n f h =
    let r = otra (str_eq (x.0) n) (x.1) (fcb_de dir n) h in
    rw (r.0) (ap (λ d. x ∷ d) (nuevo_al_final dir n f (r.1)))
  where
    otra :
        (b : Bool) (g : Fcb) (o : Option Fcb)
        → (if b then some g else o) ≡ none
        → (b ≡ false) × (o ≡ none)
    otra b g o h = ground arith
