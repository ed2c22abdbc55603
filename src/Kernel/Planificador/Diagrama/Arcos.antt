-- ===== src/Kernel/Planificador/Diagrama/Arcos.antt =====
-- The view of a system, and the arrows between views.
use mathlib.Core.Quot
use mathlib.Core.Quot.{Quot, Quot-set}
use tp_so20231c.Common.{ℕ, ◌≡◌, List, ◌∷◌, Option, none, some, arith}
use tp_so20231c.Kernel.Sistema.{Sistema, push_pcb_estado, e_pop_primer_proceso, pop_blocked}
use tp_so20231c.Kernel.Planificador.Cuenta.{cuenta, cuenta-push, cuenta-pop, cuenta-pop_blocked}

-- The same processes, each as often.
abbrev pub Iguales : List ℕ → List ℕ → Type 0
Iguales l k = (q : ℕ) → cuenta q l ≡ cuenta q k

-- A queue whose order is forgotten.
abbrev pub Bolsa : Type 0
Bolsa = Quot Iguales

abbrev pub bolsa : List ℕ → Bolsa
bolsa l = Quot.mk l

pub Iguales-cons : (p : ℕ) (l k : List ℕ) → Iguales l k → Iguales (p ∷ l) (p ∷ k)
Iguales-cons p l k h q = omega (arith, h q)

abbrev pub poner : ℕ → Bolsa → Bolsa
poner p = Quot.lift Quot-set (λ l. bolsa (p ∷ l)) (λ l k h. Quot.sound (Iguales-cons p l k h))

pub bolsa-push : (l : List ℕ) (p : ℕ) → bolsa (push_pcb_estado l p) ≡ poner p (bolsa l)
bolsa-push l p = Quot.sound (λ q. omega (arith, cuenta-push q l p))

pub bolsa-pop :
    (l : List ℕ) (r : ℕ × List ℕ)
    → e_pop_primer_proceso l ≡ some r
    → bolsa l ≡ poner (r.0) (bolsa (r.1))
bolsa-pop l r e = Quot.sound (λ q. omega (arith, cuenta-pop q l r e))

pub bolsa-pop_blocked :
    (l l' : List ℕ) (p : ℕ) → pop_blocked l p ≡ some l' → bolsa l ≡ poner p (bolsa l')
bolsa-pop_blocked l l' p e = Quot.sound (λ q. omega (arith, cuenta-pop_blocked q l l' p e))

-- The places of a process; the one that is being executed is in EXECUTE too.
pub record Vista : Type 0 where
  pub nuevos : Bolsa
  pub listos : Bolsa
  pub en_cpu : Bolsa
  pub bloqueados : Bolsa

abbrev pub con_el_que_corre : Option ℕ → List ℕ → List ℕ
con_el_que_corre none l = l
con_el_que_corre (some p) l = p ∷ l

abbrev pub vista : Sistema → Vista
vista s = record {
  nuevos = bolsa s.e_new;
  listos = bolsa s.e_ready;
  en_cpu = bolsa (con_el_que_corre s.corriendo s.e_execute);
  bloqueados = bolsa s.e_blocked;
}

-- A view with one process more at a place.
abbrev pub con_nuevo : ℕ → Vista → Vista
con_nuevo p v = record v { nuevos = poner p v.nuevos }

abbrev pub con_listo : ℕ → Vista → Vista
con_listo p v = record v { listos = poner p v.listos }

abbrev pub con_ejecutado : ℕ → Vista → Vista
con_ejecutado p v = record v { en_cpu = poner p v.en_cpu }

abbrev pub con_bloqueado : ℕ → Vista → Vista
con_bloqueado p v = record v { bloqueados = poner p v.bloqueados }

-- The arrows of the diagram, each for one process; and a turn that moves none.
pub data Flecha : Type 0 where
  llegada admision despacho desalojo bloqueo despertar : ℕ → Flecha
  ninguna : Flecha

-- What an arrow does to a view.
pub data Arco : Flecha → Vista → Vista → Type 0 where
  llega : (p : ℕ) (v : Vista) → Arco (llegada p) v (con_nuevo p v)
  admite : (p : ℕ) (v : Vista) → Arco (admision p) (con_nuevo p v) (con_listo p v)
  despacha : (p : ℕ) (v : Vista) → Arco (despacho p) (con_listo p v) (con_ejecutado p v)
  desaloja : (p : ℕ) (v : Vista) → Arco (desalojo p) (con_ejecutado p v) (con_listo p v)
  bloquea : (p : ℕ) (v : Vista) → Arco (bloqueo p) (con_ejecutado p v) (con_bloqueado p v)
  despierta : (p : ℕ) (v : Vista) → Arco (despertar p) (con_bloqueado p v) (con_listo p v)
  quieto : (v : Vista) → Arco ninguna v v

pub arco :
    {f f' : Flecha} {v v' w w' : Vista} → f ≡ f' → v ≡ v' → w ≡ w' → Arco f' v' w' → Arco f v w
arco k e h a = rw (k, e, h) a
