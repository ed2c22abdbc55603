-- ===== src/Utils/Instructions/RoundTrip.antt =====
-- The kernel and the CPU send one another the instructions of a process: names and parameters
-- arrive. A parameter beyond those that the instruction has arrives as whatever its reader held.
use tp_so20231c.Common.{
  ℕ, zero, suc, ◌^◌, ◌≤◌, ◌<◌, ◌≡◌, refl, sym, ap, ◌∙◌, List, [], ◌∷◌, ◌++◌, append_assoc,
  append-nil, map, arith, ok, bind, Option, none, some, Text, IsText, take, length,
}
use tp_so20231c.Utils.Types.{Instruccion}
use tp_so20231c.Utils.Buffer.{Buffer, pack_u32, u32_bytes, buffer_pack_string}
use tp_so20231c.Utils.Buffer.Decodes.{Decodes, bind-Decodes, bind_pure-Decodes, pure-Decodes}
use tp_so20231c.Utils.Buffer.Laws.{
  unpack_u32-Decodes, text_bytes, text_bytes-Decodes, buffer_pack_string-append, pack_u32-append,
}
use tp_so20231c.Utils.Instructions.{
  Parametros, armar_instruccion, cuantos_parametros, empaquetar_parametros,
  empaquetar_lista_instrucciones, desempaquetar_parametros, desempaquetar_lista_instrucciones,
}

-- The first `k` pointers lead to texts.
abbrev pub Present : ℕ → List (Option Text) → Type 0
Present zero ps = Unit {0}
Present (suc k) [] = ⊥
Present (suc k) (none ∷ ps) = ⊥
Present (suc k) (some s ∷ ps) = IsText s × Present k ps

abbrev pub parametros : Instruccion → List (Option Text)
parametros i = i.parametro1 ∷ i.parametro2 ∷ i.parametro3 ∷ []

abbrev pub de_textos : Parametros → List (Option Text)
de_textos (p1, p2, p3) = some p1 ∷ some p2 ∷ some p3 ∷ []

-- The name and the parameters that belong to it.
abbrev pub visible : Instruccion → ℕ × List (Option Text)
visible i = (i.nombre, take (cuantos_parametros i.nombre) (parametros i))

-- What `k` parameters look like in a buffer, and what a reader that held `ps` makes of them.
pub record Sends (k : ℕ) (i : Instruccion) (ps : Parametros) : Type 0 where
  pub bytes : List ℕ
  pub leidos : Parametros
  pub packs : (b : Buffer) → empaquetar_parametros k b i ≡ ok (b ++ bytes)
  pub reads : Decodes (desempaquetar_parametros k ps) bytes leidos
  pub same : take k (de_textos leidos) ≡ take k (parametros i)

two-append :
    (b : Buffer) (s t : Text)
    → buffer_pack_string (buffer_pack_string b s) t ≡ b ++ (text_bytes s ++ text_bytes t)
two-append b s t =
    buffer_pack_string-append _ t
    ∙ ap (λ (x : Buffer). x ++ text_bytes t) (buffer_pack_string-append b s)
    ∙ append_assoc b (text_bytes s) (text_bytes t)

three-append :
    (b : Buffer) (s t u : Text)
    → buffer_pack_string (buffer_pack_string (buffer_pack_string b s) t) u
      ≡ b ++ (text_bytes s ++ (text_bytes t ++ text_bytes u))
three-append b s t u =
    two-append _ t u
    ∙ ap (λ (x : Buffer). x ++ (text_bytes t ++ text_bytes u)) (buffer_pack_string-append b s)
    ∙ append_assoc b (text_bytes s) _

-- The readers of one, two and three texts.
pub cero-Decodes : (ps : Parametros) → Decodes (desempaquetar_parametros 0 ps) [] ps
unfolding desempaquetar_parametros
cero-Decodes (p1, p2, p3) = pure-Decodes (p1, p2, p3)

pub uno-Decodes :
    (a : Text) (ps : Parametros)
    → IsText a
    → Decodes (desempaquetar_parametros 1 ps) (text_bytes a) (a, ps.1, ps.2)
unfolding desempaquetar_parametros
uno-Decodes a (p1, p2, p3) t = bind_pure-Decodes _ (text_bytes-Decodes a t) refl

pub dos-Decodes :
    (a b : Text) (ps : Parametros)
    → IsText a
    → IsText b
    → Decodes (desempaquetar_parametros 2 ps) (text_bytes a ++ text_bytes b) (a, b, ps.2)
unfolding desempaquetar_parametros
dos-Decodes a b (p1, p2, p3) t u =
    bind-Decodes _ (text_bytes-Decodes a t) (bind_pure-Decodes _ (text_bytes-Decodes b u) refl)

pub tres-Decodes :
    (a b c : Text) (ps : Parametros)
    → IsText a
    → IsText b
    → IsText c
    → Decodes
        (desempaquetar_parametros 3 ps)
        (text_bytes a ++ (text_bytes b ++ text_bytes c))
        (a, b, c)
unfolding desempaquetar_parametros
tres-Decodes a b c (p1, p2, p3) t u v =
    bind-Decodes _ (text_bytes-Decodes a t)
      (bind-Decodes _ (text_bytes-Decodes b u) (bind_pure-Decodes _ (text_bytes-Decodes c v) refl))

parametros-Sends :
    (k nombre : ℕ) (a b c : Option Text) (ps : Parametros)
    → k ≤ 3
    → Present k (a ∷ b ∷ c ∷ [])
    → Sends k (record { nombre = nombre; parametro1 = a; parametro2 = b; parametro3 = c }) ps
unfolding empaquetar_parametros desempaquetar_parametros
parametros-Sends zero nombre a b c ps h p = record {
  bytes = [];
  leidos = ps;
  packs = λ b. ap ok (sym (append-nil b));
  reads = cero-Decodes ps;
  same = refl;
}
parametros-Sends (suc zero) nombre (some a) b c (p1, p2, p3) h p = record {
  bytes = text_bytes a;
  leidos = (a, p2, p3);
  packs = λ d. ap ok (buffer_pack_string-append d a);
  reads = uno-Decodes a (p1, p2, p3) p.0;
  same = refl;
}
parametros-Sends (suc (suc zero)) nombre (some a) (some b) c (p1, p2, p3) h p = record {
  bytes = text_bytes a ++ text_bytes b;
  leidos = (a, b, p3);
  packs = λ d. ap ok (two-append d a b);
  reads = dos-Decodes a b (p1, p2, p3) p.0 p.1.0;
  same = refl;
}
parametros-Sends (suc (suc (suc zero))) nombre (some a) (some b) (some c) ps h p = record {
  bytes = text_bytes a ++ (text_bytes b ++ text_bytes c);
  leidos = (a, b, c);
  packs = λ d. ap ok (three-append d a b c);
  reads = tres-Decodes a b c ps p.0 p.1.0 p.1.1.0;
  same = refl;
}
parametros-Sends (suc zero) nombre none b c ps h p = elim p [ ]
parametros-Sends (suc (suc zero)) nombre none b c ps h p = elim p [ ]
parametros-Sends (suc (suc zero)) nombre (some a) none c ps h p = elim p.1 [ ]
parametros-Sends (suc (suc (suc zero))) nombre none b c ps h p = elim p [ ]
parametros-Sends (suc (suc (suc zero))) nombre (some a) none c ps h p = elim p.1 [ ]
parametros-Sends (suc (suc (suc zero))) nombre (some a) (some b) none ps h p = elim p.1.1 [ ]
parametros-Sends (suc (suc (suc (suc k)))) nombre a b c ps h p = absurd (omega arith)

pub cuantos_parametros-le : (nombre : ℕ) → cuantos_parametros nombre ≤ 3
unfolding cuantos_parametros
cuantos_parametros-le nombre = ground arith

-- An instruction that can be sent: its name has 32 bits, its parameters are there.
pub record IsComplete (i : Instruccion) : Type 0 where
  pub nombre : i.nombre < 2 ^ 32
  pub present : Present (cuantos_parametros i.nombre) (parametros i)

abbrev pub AreComplete : List Instruccion → Type 0
AreComplete [] = Unit {0}
AreComplete (i ∷ l) = IsComplete i × AreComplete l

-- What a list of instructions looks like in a buffer, and what arrives of it.
pub record Travels (l : List Instruccion) (ps : Parametros) : Type 0 where
  pub bytes : List ℕ
  pub llegan : List Instruccion
  pub packs : (b : Buffer) → empaquetar_lista_instrucciones b (length l) l ≡ ok (b ++ bytes)
  pub reads : Decodes (desempaquetar_lista_instrucciones (length l) ps) bytes llegan
  pub same : map visible llegan ≡ map visible l

cons-Travels :
    (i : Instruccion) (l : List Instruccion) (ps : Parametros)
    → i.nombre < 2 ^ 32
    → (s : Sends (cuantos_parametros i.nombre) i ps) → Travels l s.leidos
    → Travels (i ∷ l) ps
unfolding empaquetar_lista_instrucciones desempaquetar_lista_instrucciones armar_instruccion
cons-Travels i l ps h s t = record {
  bytes = u32_bytes i.nombre ++ (s.bytes ++ t.bytes);
  llegan = armar_instruccion i.nombre s.leidos ∷ t.llegan;
  packs = λ b.
      rw (s.packs (pack_u32 b i.nombre), bind)
        (t.packs (pack_u32 b i.nombre ++ s.bytes)
          ∙ ap ok (rw (pack_u32-append b i.nombre) (simp append_assoc)));
  reads =
      bind-Decodes _ (unpack_u32-Decodes i.nombre h)
        (bind-Decodes _ s.reads (bind_pure-Decodes _ t.reads refl));
  same = ap (λ v. (i.nombre, v) ∷ map visible t.llegan) s.same ∙ ap (λ v. visible i ∷ v) t.same;
}

pub Travels_lem : (l : List Instruccion) (ps : Parametros) → AreComplete l → Travels l ps
unfolding empaquetar_lista_instrucciones desempaquetar_lista_instrucciones
Travels_lem [] ps c = record {
  bytes = [];
  llegan = [];
  packs = λ b. ap ok (sym (append-nil b));
  reads = pure-Decodes [];
  same = refl;
}
Travels_lem (i ∷ l) ps c =
    let s : Sends (cuantos_parametros i.nombre) i ps =
      parametros-Sends (cuantos_parametros i.nombre) i.nombre i.parametro1 i.parametro2 i.parametro3
        ps (cuantos_parametros-le i.nombre) c.0.present in
    cons-Travels i l ps c.0.nombre s (Travels_lem l s.leidos c.1)

-- A list of instructions whose parameters are texts is packed without a fault behind any buffer,
-- and is unpacked from those bytes with the same names and the same parameters, as many as each
-- instruction has, whatever the reader's variables held before.
pub lista_instrucciones_llega :
    (l : List Instruccion) (ps : Parametros) (b : Buffer)
    → AreComplete l
    → (bytes : List ℕ) × (llegan : List Instruccion) × (empaquetar_lista_instrucciones b
          (length l)
          l
        ≡ ok (b ++ bytes))
      × Decodes (desempaquetar_lista_instrucciones (length l) ps) bytes llegan
      × (map visible llegan ≡ map visible l)
lista_instrucciones_llega l ps b c =
    let t : Travels l ps = Travels_lem l ps c in (t.bytes, t.llegan, t.packs b, t.reads, t.same)
