-- ===== src/Utils/Instructions/Obtener/Turnos.antt =====
-- The turns of the loop of `obtener_lista_instrucciones`, one by one.
use tp_so20231c.Common.{
  ℕ, zero, suc, ◌<◌, ◌≡◌, ◌≢◌, refl, sym, ◌∙◌, inl, inr, Bool-cases, List, [], ◌∷◌, Option, none,
  some, true, false, Outcome, ok, exit, fault, ◌==◌, arith, length,
}
use tp_so20231c.Utils.Tipo
use tp_so20231c.Utils.Types.{Instruccion}
use tp_so20231c.Utils.Buffer.{Buffer, unpack_u32}
use tp_so20231c.Utils.Buffer.Shrinks.{
  Shrinks, bind-Shrinks, pure-Shrinks, buffer_unpack_string-Shrinks, length-unpack_u32, >>=-eq-ok,
}
use tp_so20231c.Utils.Instructions.{Parametros, armar_instruccion, desempaquetar_parametros}
use tp_so20231c.Utils.Instructions.Obtener.{
  leer_instruccion, parametros_del_caso, con_cabeza, obtener_lista_instrucciones,
}

pub obtener_sigue :
    (fuel n : ℕ) (ps leidos : Parametros) (b b' : Buffer)
    → leer_instruccion ps b ≡ ok ((n, leidos), b')
    → (n == Tipo.exit) ≡ false
    → obtener_lista_instrucciones (suc fuel) ps b
      ≡ con_cabeza (armar_instruccion n leidos) (obtener_lista_instrucciones fuel leidos b')
unfolding obtener_lista_instrucciones
obtener_sigue fuel n ps leidos b b' e h = rw (e, obtener_lista_instrucciones) (rw h refl)

pub obtener_termina :
    (fuel n : ℕ) (ps leidos : Parametros) (b b' : Buffer)
    → leer_instruccion ps b ≡ ok ((n, leidos), b')
    → (n == Tipo.exit) ≡ true
    → obtener_lista_instrucciones (suc fuel) ps b ≡ some (ok (armar_instruccion n leidos ∷ [], b'))
unfolding obtener_lista_instrucciones
obtener_termina fuel n ps leidos b b' e h = rw (e, obtener_lista_instrucciones) (rw h refl)

desempaquetar_parametros-Shrinks :
    (k : ℕ) (ps : Parametros) → Shrinks (desempaquetar_parametros k ps)
unfolding desempaquetar_parametros
desempaquetar_parametros-Shrinks zero (p1, p2, p3) = pure-Shrinks _
desempaquetar_parametros-Shrinks (suc zero) (p1, p2, p3) =
    bind-Shrinks _ _ buffer_unpack_string-Shrinks λ a. pure-Shrinks _
desempaquetar_parametros-Shrinks (suc (suc zero)) (p1, p2, p3) =
    bind-Shrinks _ _ buffer_unpack_string-Shrinks
      λ a. bind-Shrinks _ _ buffer_unpack_string-Shrinks λ b. pure-Shrinks _
desempaquetar_parametros-Shrinks (suc (suc (suc zero))) (p1, p2, p3) =
    bind-Shrinks _ _ buffer_unpack_string-Shrinks λ a.
      bind-Shrinks _ _ buffer_unpack_string-Shrinks
        λ b. bind-Shrinks _ _ buffer_unpack_string-Shrinks λ c. pure-Shrinks _
desempaquetar_parametros-Shrinks (suc (suc (suc (suc k)))) (p1, p2, p3) = record {
  leaves = λ b b' a e. ground arith;
}

-- A turn takes at least the four bytes of a name off the buffer.
length-leer_instruccion :
    (ps leidos : Parametros) (n : ℕ) (b b' : Buffer)
    → leer_instruccion ps b ≡ ok ((n, leidos), b')
    → length b' < length b
unfolding leer_instruccion
length-leer_instruccion ps leidos n b b' e =
    let (m, b1, e1, e2) = >>=-eq-ok unpack_u32 _ b b' (n, leidos) e in
    let s =
      bind-Shrinks (desempaquetar_parametros (parametros_del_caso m) ps) _
        (desempaquetar_parametros-Shrinks (parametros_del_caso m) ps) (λ q. pure-Shrinks (m, q)) in
    let h = length-unpack_u32 b b1 m e1 in let k = s.leaves b1 b' (n, leidos) e2 in omega arith

con_cabeza-ne-none :
    (i : Instruccion) (o : Option (Outcome (List Instruccion × Buffer)))
    → o ≢ none
    → con_cabeza i o ≢ none
con_cabeza-ne-none i none h = h
con_cabeza-ne-none i (some (ok x)) h = λ e. cc
con_cabeza-ne-none i (some exit) h = λ e. cc
con_cabeza-ne-none i (some fault) h = λ e. cc

seguir-ne-none :
    (fuel n : ℕ) (ps leidos : Parametros) (b b' : Buffer)
    → leer_instruccion ps b ≡ ok ((n, leidos), b')
    → obtener_lista_instrucciones fuel leidos b' ≢ none
    → obtener_lista_instrucciones (suc fuel) ps b ≢ none
seguir-ne-none fuel n ps leidos b b' e r = elim (Bool-cases (n == Tipo.exit)) [
  | inl t ↦ λ q. cc (obtener_termina fuel n ps leidos b b' e t)
  | inr f ↦ λ q. con_cabeza-ne-none _ _ r (sym (obtener_sigue fuel n ps leidos b b' e f) ∙ q)
]

turno-ne-none :
    (fuel : ℕ) (ps : Parametros) (b : Buffer) (o : Outcome ((ℕ × Parametros) × Buffer))
    → leer_instruccion ps b ≡ o
    → ((leidos : Parametros) (b' : Buffer)
        → length b' < length b
        → obtener_lista_instrucciones fuel leidos b' ≢ none)
    → obtener_lista_instrucciones (suc fuel) ps b ≢ none
unfolding obtener_lista_instrucciones
turno-ne-none fuel ps b (ok ((n, leidos), b')) e r =
    seguir-ne-none fuel n ps leidos b b' e
      (r leidos b' (length-leer_instruccion ps leidos n b b' e))
turno-ne-none fuel ps b exit e r = rw (e, obtener_lista_instrucciones) (λ q. cc)
turno-ne-none fuel ps b fault e r = rw (e, obtener_lista_instrucciones) (λ q. cc)

-- However the bytes read, the loop ends within as many turns as the buffer has bytes, and one:
-- with a list, with `exit(-1)` at an empty buffer, or in a fault.
pub obtener_termina_siempre :
    (fuel : ℕ) (ps : Parametros) (b : Buffer)
    → length b < fuel
    → obtener_lista_instrucciones fuel ps b ≢ none
obtener_termina_siempre zero ps b h = elim h [ ]
obtener_termina_siempre (suc fuel) ps b h =
    turno-ne-none fuel ps b _ refl
      λ leidos b' k. obtener_termina_siempre fuel leidos b' (omega arith)
