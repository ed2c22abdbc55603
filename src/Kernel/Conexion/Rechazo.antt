-- ===== src/Kernel/Conexion/Rechazo.antt =====
-- A connection that is not a console's, or that does not send a program.
use tp_so20231c.Common.{
  ℕ, ◌<◌, ◌^◌, ◌≡◌, ◌≢◌, refl, ◌∙◌, List, [], ◌++◌, append_assoc, ◌==◌, arith, Option, none, some,
  false, Bool-cases, Outcome, ok, length, ◌⊎◌, inl, inr,
}
use tp_so20231c.Common.Int.{ℤ}
use tp_so20231c.Utils.Saludo
use tp_so20231c.Utils.Header
use tp_so20231c.Utils.Types.{TablaSegmento}
use tp_so20231c.Utils.Buffer.{Buffer}
use tp_so20231c.Utils.Segments.{int_eq}
use tp_so20231c.Utils.Instructions.{Parametros}
use tp_so20231c.Utils.Frames.{Stream, stream_send_empty_buffer, stream_send_buffer, handshake}
use tp_so20231c.Utils.Frames.Marcos.{marco, marco_lem, saludo_marco, marco_saludo-Decodes}
use tp_so20231c.Kernel.Sistema.{Sistema}
use tp_so20231c.Kernel.Conexion.{Conexion, rechazar, atender_consola}
use tp_so20231c.Kernel.Conexion.Consola.{marco_recibido, saludo_recibido}

module _ (fuel : ℕ) (ps : Parametros) (registro_cpu : List ℕ) (fila : TablaSegmento)
    (estimacion : ℤ) where
  abbrev atender : Sistema → Stream → Stream → Stream → Option (Outcome Conexion)
  atender s = atender_consola fuel ps registro_cpu fila estimacion s

  otro_saludo :
      (s : Sistema) (h : ℕ) (rest a_consola a_memoria : Stream)
      → h < 256
      → h ≢ Saludo.hs_consola
      → atender s (marco h [] ++ rest) a_consola a_memoria
        ≡ some (ok (rechazar s a_consola a_memoria))
  unfolding atender_consola handshake int_eq
  otro_saludo s h rest a_consola a_memoria p n =
      let e : (h == Saludo.hs_consola) ≡ false = ground arith in
      rw ((marco_saludo-Decodes h p).reads rest, e, atender_consola, handshake) refl

  otro_programa :
      (s : Sistema) (h : ℕ) (b : Buffer) (rest a_consola a_memoria : Stream)
      → length b < 2 ^ 32
      → h ≢ Header.lista_instrucciones
      → atender s (marco Saludo.hs_consola [] ++ (marco h b ++ rest)) a_consola a_memoria
        ≡ some (ok (rechazar s (a_consola ++ marco Saludo.hs_aux []) a_memoria))
  otro_programa s h b rest a_consola a_memoria l n =
      let e : (h == Header.lista_instrucciones) ≡ false = ground arith in
      saludo_recibido fuel ps registro_cpu fila estimacion s (marco h b ++ rest) a_consola a_memoria
      ∙ marco_recibido fuel ps registro_cpu fila estimacion s h b rest
          (a_consola ++ marco Saludo.hs_aux []) a_memoria l
      ∙ rw e refl

  -- A connection with another greeting than a console's, or with another header than that of a
  -- program behind it, makes no process: the queues and the semaphores stay, the memory is told
  -- nothing, and the other side is sent `hs_aux` if the greeting was a console's and nothing if not.
  pub conexion_rechazada :
      (s : Sistema) (h h' : ℕ) (b : Buffer) (rest a_consola a_memoria : Stream)
      → h < 256
      → h' < 256
      → length b < 2 ^ 32
      → (h ≢ Saludo.hs_consola) ⊎ (h' ≢ Header.lista_instrucciones)
      → (k : Conexion) × (atender_consola fuel ps registro_cpu fila estimacion s
            (stream_send_buffer (stream_send_empty_buffer [] h) h' b ++ rest)
            a_consola
            a_memoria
          ≡ some (ok k))
        × (k.pcb_nuevo ≡ none)
        × (k.sistema ≡ s)
        × (k.a_memoria ≡ a_memoria)
        × ((h ≡ Saludo.hs_consola)
              × (k.a_consola ≡ stream_send_empty_buffer a_consola Saludo.hs_aux)
            ⊎ (h ≢ Saludo.hs_consola) × (k.a_consola ≡ a_consola))
  unfolding rechazar
  conexion_rechazada s h h' b rest a_consola a_memoria p q l o =
      rw
        (
          saludo_marco [] h p,
          saludo_marco a_consola Saludo.hs_aux (omega arith),
          marco_lem h' b (marco h []) q,
          append_assoc (marco h []) (marco h' b) rest,
        )
        (elim (Bool-cases (h == Saludo.hs_consola)) [
          | inl e ↦
              let c : h ≡ Saludo.hs_consola = ground arith in
              let n : h' ≢ Header.lista_instrucciones = elim o [
                | inl x ↦ elim (x c) [ ]
                | inr y ↦ y
              ] in
              (
                rechazar s (a_consola ++ marco Saludo.hs_aux []) a_memoria,
                rw c (otro_programa s h' b rest a_consola a_memoria l n),
                refl,
                refl,
                refl,
                inl (c, refl),
              )
          | inr e ↦
              let n : h ≢ Saludo.hs_consola = ground arith in
              (
                rechazar s a_consola a_memoria,
                otro_saludo s h (marco h' b ++ rest) a_consola a_memoria p n,
                refl,
                refl,
                refl,
                inr (n, refl),
              )
        ])
