-- ===== src/Kernel/Abiertos.antt =====
-- planificador.c: the files that are open. The entry of a file is shared by the global list and the
-- tables of the processes, which hold pointers to it; no entry is freed, so that the store is a
-- function of the pointer.
pub mod Posicion
use tp_so20231c.Common.{
  ℕ, suc, List, [], ◌∷◌, ◌++◌, Option, none, some, Outcome, ok, fault, Text, str_eq, ◌==◌,
  if◌then◌else◌, Bool, true, false, bind,
}
use tp_so20231c.Common.Int.{ℤ, pos}
use tp_so20231c.Utils.Types.{RtaKernelFs}
use tp_so20231c.Utils.Buffer.{pattern32}

-- `tabla_de_archivos`, but its mutex, which is not locked.
pub record Abierto : Type 0 where
  pub archivo : Text
  pub pcb_en_espera : List ℕ
  pub posicion_puntero : ℤ

abbrev pub Entradas : Type 0
Entradas = ℕ → Abierto

unfoldable pub crear_tabla_de_archivos : Text → Abierto
crear_tabla_de_archivos nombre_archivo = record {
  archivo = nombre_archivo;
  pcb_en_espera = [];
  posicion_puntero = pos 0;
}

-- `list_find` and `list_remove_by_condition` by the name of a file.
unfoldable pub buscar : Entradas → List ℕ → Text → Option ℕ
unfolding str_eq
buscar o [] archivo = none
buscar o (p ∷ tabla) archivo =
    let resto = buscar o tabla archivo in if str_eq archivo (o p).archivo then some p else resto

unfoldable pub sacar : Entradas → List ℕ → Text → List ℕ
unfolding str_eq
sacar o [] archivo = []
sacar o (p ∷ tabla) archivo =
    let resto = sacar o tabla archivo in if str_eq archivo (o p).archivo then tabla else p ∷ resto

-- Writing through a pointer.
unfoldable pub con_entrada : Entradas → ℕ → Abierto → Entradas
con_entrada o p a q = if q == p then a else o q

-- The entries, the next one, the global list and the table of the process.
pub record Tablas : Type 0 where
  pub entradas : Entradas
  pub libre : ℕ
  pub lista_global_archivos : List ℕ
  pub tabla_de_archivos : List ℕ

-- `list_find` with a condition that takes an entry by value: `por_valor` is what it finds where it is
-- handed the entry's address.
unfoldable pub abierto_en_global :
    (Abierto → Outcome Abierto) → Entradas → List ℕ → Text → Outcome Bool
unfolding str_eq
abierto_en_global por_valor o [] archivo = ok false
abierto_en_global por_valor o (p ∷ lista) archivo =
    let resto = abierto_en_global por_valor o lista archivo in
    bind (por_valor (o p)) (λ v. if str_eq archivo v.archivo then ok true else resto)

-- I_OPEN. Where the file is found open already, the process is put into a queue that is a list.
unfoldable pub abrir_entrada : (Abierto → Outcome Abierto) → Text → Tablas → Outcome Tablas
unfolding con_entrada crear_tabla_de_archivos abierto_en_global
abrir_entrada por_valor archivo t =
    bind (abierto_en_global por_valor t.entradas t.lista_global_archivos archivo) (λ b.
      if b
      then fault
      else ok (record t {
        entradas = con_entrada t.entradas t.libre (crear_tabla_de_archivos archivo);
        libre = suc t.libre;
        lista_global_archivos = t.lista_global_archivos ++ t.libre ∷ [];
        tabla_de_archivos = t.tabla_de_archivos ++ t.libre ∷ [];
      }))

-- I_SEEK. A file that the process has not open is a NULL that is followed.
unfoldable pub mover_puntero : Text → ℤ → Tablas → Outcome Tablas
unfolding buscar sacar con_entrada
mover_puntero archivo posicion t = elim (buscar t.entradas t.tabla_de_archivos archivo) [
  | none ↦ fault
  | some p ↦
      let o = con_entrada t.entradas p (record (t.entradas p) { posicion_puntero = posicion }) in
      ok (record t {
        entradas = o;
        tabla_de_archivos = sacar o t.tabla_de_archivos archivo ++ p ∷ [];
      })
]

-- I_READ and I_WRITE: the request to the filesystem.
unfoldable pub pedir_archivo : Text → ℤ → ℤ → ℤ → Tablas → Outcome RtaKernelFs
unfolding buscar pattern32
pedir_archivo archivo direccion_fisica size pid t =
    elim (buscar t.entradas t.tabla_de_archivos archivo) [
      | none ↦ fault
      | some p ↦ ok (record {
        size = size;
        direccion_fisica = direccion_fisica;
        nombre_archivo = archivo;
        pid = pid;
        puntero = pattern32 (t.entradas p).posicion_puntero;
      })
    ]
