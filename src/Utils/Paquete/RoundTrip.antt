-- ===== src/Utils/Paquete/RoundTrip.antt =====
-- The values that are put into a packet are the ones that are received.
use tp_so20231c.Common.{
  ℕ, zero, suc, ◌+◌, ◌<◌, ◌^◌, ◌≡◌, refl, ap, ◌∙◌, sym, List, [], ◌∷◌, ◌++◌, append_assoc, arith,
  append-nil, some, ok, length, length-append,
}
use tp_so20231c.Common.Int.{pos}
use tp_so20231c.Utils.Buffer.{Buffer, u32_bytes, signed32}
use tp_so20231c.Utils.Buffer.Decodes.{Decodes}
use tp_so20231c.Utils.Buffer.Laws.{
  take-length-append, drop-length-append, of_bytes-u32_bytes, length-u32_bytes,
}
use tp_so20231c.Utils.Frames.{Stream}
use tp_so20231c.Utils.Paquete.{
  Paquete, paquete, crear_paquete, agregar_a_paquete, enviar_paquete, recibir_operacion,
  recibir_buffer, con_valor, leer_valores, recibir_paquete, enviar_mensaje, serializar_paquete,
  mensaje,
}

recibir_buffer-Decodes :
    (b : Buffer) → length b < 2 ^ 31 → Decodes recibir_buffer (u32_bytes (length b) ++ b) b
unfolding recibir_buffer u32_bytes
recibir_buffer-Decodes b h = record {
  reads = λ rest. ground (
    arith,
    of_bytes-u32_bytes (length b) (omega arith),
    length-append b rest,
    take-length-append b rest,
    drop-length-append b rest,
  );
}

-- The bytes of the values, one behind the other.
valores_bytes : List (List ℕ) → List ℕ
valores_bytes [] = []
valores_bytes (v ∷ vs) = (u32_bytes (length v) ++ v) ++ valores_bytes vs

abbrev pub agregar_todos : Paquete → List (List ℕ) → Paquete
agregar_todos p [] = p
agregar_todos p (v ∷ vs) = agregar_todos (agregar_a_paquete p v) vs

agregado :
    (p : Paquete) (vs : List (List ℕ))
    → agregar_todos p vs ≡ record p { buffer = p.buffer ++ valores_bytes vs }
unfolding agregar_a_paquete valores_bytes
agregado p [] = ap (λ b. record p { buffer = b }) (sym (append-nil p.buffer))
agregado p (v ∷ vs) =
    agregado (agregar_a_paquete p v) vs
    ∙ ap (λ b. record p { buffer = b })
        (append_assoc p.buffer (u32_bytes (length v) ++ v) (valores_bytes vs))

leer_uno :
    (fuel : ℕ) (v rest : List ℕ)
    → length v < 2 ^ 31
    → leer_valores (suc fuel) ((u32_bytes (length v) ++ v) ++ rest)
      ≡ con_valor v (leer_valores fuel rest)
unfolding leer_valores u32_bytes
leer_uno fuel v rest h = rw ((recibir_buffer-Decodes v h).reads rest, leer_valores) refl

leidos :
    (vs : List (List ℕ)) (fuel : ℕ)
    → length vs < fuel
    → length (valores_bytes vs) < 2 ^ 31
    → leer_valores fuel (valores_bytes vs) ≡ some (ok vs)
unfolding valores_bytes leer_valores
leidos vs zero f h = elim f [ ]
leidos [] (suc fuel) f h = refl
leidos (v ∷ vs) (suc fuel) f h =
    let l : length (valores_bytes (v ∷ vs)) ≡ length v + 4 + length (valores_bytes vs) =
      largo v (valores_bytes vs) in
    leer_uno fuel v (valores_bytes vs) (omega (arith, l))
    ∙ ap (con_valor v) (leidos vs fuel (omega arith) (omega (arith, l)))
  where
    largo :
        (v rest : List ℕ)
        → length ((u32_bytes (length v) ++ v) ++ rest) ≡ length v + 4 + length rest
    largo v rest = omega (
      arith,
      length-append (u32_bytes (length v) ++ v) rest,
      length-append (u32_bytes (length v)) v,
      length-u32_bytes (length v),
    )

-- What a packet is on a stream.
enviado :
    (p : Paquete) (rest : Stream)
    → enviar_paquete [] p ++ rest
      ≡ u32_bytes p.codigo_operacion ++ ((u32_bytes (length p.buffer) ++ p.buffer) ++ rest)
unfolding enviar_paquete serializar_paquete
enviado p rest =
    append_assoc (u32_bytes p.codigo_operacion) (u32_bytes (length p.buffer) ++ p.buffer) rest

operacion-Decodes : (n : ℕ) → n < 2 ^ 31 → Decodes recibir_operacion (u32_bytes n) (pos n)
unfolding recibir_operacion u32_bytes signed32
operacion-Decodes n h = record {
  reads = λ rest. ground (arith, of_bytes-u32_bytes n (omega arith));
}

recibido :
    (vs : List (List ℕ)) (fuel : ℕ) (b rest : List ℕ)
    → b ≡ valores_bytes vs
    → length b < 2 ^ 31
    → length vs < fuel
    → recibir_paquete fuel ((u32_bytes (length b) ++ b) ++ rest) ≡ some (ok (vs, rest))
unfolding recibir_paquete
recibido vs fuel b rest e h f =
    rw ((recibir_buffer-Decodes b h).reads rest, recibir_paquete)
      (rw (e, leidos vs fuel f (rw e at h)) refl)

-- Values that are put into a packet one after the other, with their sizes fewer than 2 ^ 31 bytes in
-- all, are sent, and the other side reads the code of a packet and then, in one turn of its loop more
-- than there are values, the same values, with what is sent behind them untouched. A text that is
-- sent as a message is read with the code of a message, and with its NUL.
pub paquete_llega :
    (vs : List (List ℕ)) (s : List ℕ) (fuel : ℕ) (rest : Stream)
    → length (agregar_todos crear_paquete vs).buffer < 2 ^ 31
    → length s + 1 < 2 ^ 31
    → length vs < fuel
    → (resto otro : Stream) × (recibir_operacion
          (enviar_paquete [] (agregar_todos crear_paquete vs) ++ rest)
        ≡ ok (pos paquete, resto))
      × (recibir_paquete fuel resto ≡ some (ok (vs, rest)))
      × (recibir_operacion (enviar_mensaje [] s ++ rest) ≡ ok (pos mensaje, otro))
      × (recibir_buffer otro ≡ ok (s ++ 0 ∷ [], rest))
unfolding enviar_mensaje crear_paquete
paquete_llega vs s fuel rest h k f =
    let e = agregado crear_paquete vs in
    let b = valores_bytes vs in
    let n = s ++ 0 ∷ [] in
    let l : length b < 2 ^ 31 = rw e at h in
    let m : length n < 2 ^ 31 = omega (arith, length-append s (0 ∷ [])) in
    (
      (u32_bytes (length b) ++ b) ++ rest,
      (u32_bytes (length n) ++ n) ++ rest,
      rw (e, enviado (record { codigo_operacion = paquete; buffer = b }) rest)
          ((operacion-Decodes paquete (omega arith)).reads ((u32_bytes (length b) ++ b) ++ rest)),
      recibido vs fuel b rest refl l f,
      rw (enviado (record { codigo_operacion = mensaje; buffer = n }) rest)
          ((operacion-Decodes mensaje (omega arith)).reads ((u32_bytes (length n) ++ n) ++ rest)),
      (recibir_buffer-Decodes n m).reads rest,
    )
