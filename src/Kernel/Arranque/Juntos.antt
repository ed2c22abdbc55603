-- ===== src/Kernel/Arranque/Juntos.antt =====
-- The kernel and the memory start together.
use tp_so20231c.Common.{
  ℕ, ◌≤◌, ◌<◌, ◌^◌, ◌≡◌, refl, ap, ◌∙◌, List, [], ◌∷◌, ◌++◌, append_assoc, append-nil, false, ok,
  bind, length, length-append, arith,
}
use tp_so20231c.Common.Int.{ℤ, pos}
use tp_so20231c.Utils.Header
use tp_so20231c.Utils.Saludo
use tp_so20231c.Utils.Types.{TablaSegmento}
use tp_so20231c.Utils.Buffer.{unpack_int, pack_int, buffer_create}
use tp_so20231c.Utils.Buffer.Decodes.{
  Decodes, bind-Decodes, bind_pure-Decodes, bind_last-Decodes, lift-Decodes,
}
use tp_so20231c.Utils.Buffer.Laws.{
  IsInt, int_bytes, int_bytes-Decodes, pack_int-append, length-int_bytes,
}
use tp_so20231c.Utils.Segments.{
  empaquetar_segmento, empaquetar_lista_segmentos, desempaquetar_segmento,
}
use tp_so20231c.Utils.Segments.RoundTrip.{
  largo_fila, IsRow, row_bytes, desempaquetar_segmento-Decodes, empaquetar_lista_segmentos-append,
  table_bytes,
}
use tp_so20231c.Utils.Frames.{Stream, stream_send_buffer, stream_send_empty_buffer, handshake}
use tp_so20231c.Utils.Frames.Marcos.{
  marco, marco_lem, marco-Decodes, marco_vacio-Decodes, en_buffer-Decodes, saludo_marco,
  marco_saludo-Decodes, saludo_aceptado,
}
use tp_so20231c.Memoria.Bitarray.{Bitarray}
use tp_so20231c.Memoria.Espacios.{ocupar_bit_map}
use tp_so20231c.Memoria.Espacios.Cuenta.{Todos}
use tp_so20231c.Memoria.Segmentos.{Memoria, PorValor}
use tp_so20231c.Memoria.Arranque.{
  enviar_headers, cant_max_por_pcb, inicializacion_memoria, segmento_zero, atender_arranque,
}
use tp_so20231c.Memoria.Arranque.Limpia.{fila_zero, primer_segmento}
use tp_so20231c.Kernel.Arranque.{respuesta, conectar, recibir_inicio, conectar_memoria}

-- All that the memory sends when it starts.
inicio_bytes : TablaSegmento → ℤ → List ℕ → List ℕ
inicio_bytes fila cant tabla =
    marco Header.general []
    ++ (marco Saludo.hs_kernel (row_bytes fila)
        ++ (marco Saludo.hs_aux (int_bytes cant) ++ (marco Saludo.hs_aux tabla ++ [])))

inicio-Decodes :
    (usable : ℕ → ℕ) (fila : TablaSegmento) (cant : ℤ) (tabla : List ℕ)
    → 20 ≤ usable 12
    → IsRow fila
    → IsInt cant
    → length tabla < 2 ^ 32
    → Decodes (recibir_inicio usable) (inicio_bytes fila cant tabla) (fila, cant)
unfolding recibir_inicio inicio_bytes row_bytes
inicio-Decodes usable fila cant tabla u r c l = marco_vacio-Decodes Header.general _ (
    marco-Decodes Saludo.hs_kernel (empaquetar_segmento [] fila) _ (omega (arith, largo_fila fila))
      (en_buffer-Decodes (desempaquetar_segmento usable) (empaquetar_segmento [] fila) _
        (desempaquetar_segmento-Decodes usable fila u r)
        (marco-Decodes Saludo.hs_aux (int_bytes cant) _ (omega (arith, length-int_bytes cant)) (
          en_buffer-Decodes unpack_int (int_bytes cant) _ (int_bytes-Decodes cant c)
            (marco-Decodes Saludo.hs_aux tabla _ l (record { reads = λ rest. refl }))))))

-- The whole stream of the memory to the kernel, its greeting first.
conexion-Decodes :
    (usable : ℕ → ℕ) (fila : TablaSegmento) (cant : ℤ) (tabla : List ℕ)
    → 20 ≤ usable 12
    → IsRow fila
    → IsInt cant
    → length tabla < 2 ^ 32
    → Decodes
        (conectar_memoria usable)
        (marco Saludo.hs_aux [] ++ inicio_bytes fila cant tabla)
        (fila, cant)
unfolding conectar_memoria conectar respuesta
conexion-Decodes usable fila cant tabla u r c l =
    bind-Decodes (λ _. recibir_inicio usable)
      (bind_last-Decodes _
        (bind_pure-Decodes _ (marco_saludo-Decodes Saludo.hs_aux (omega arith)) refl)
        (lift-Decodes (ok tt) refl))
      (inicio-Decodes usable fila cant tabla u r c l)

-- The memory with segment zero in it.
abbrev con_zero : (B : Bitarray) → B.Rep → ℕ → Memoria B
con_zero B b s = record { mapa = ocupar_bit_map B b 0 (pos s); tabla = fila_zero s ∷ [] }

hasta_fila : Stream → ℕ → Stream
hasta_fila to s =
    (to ++ marco Header.general []) ++ marco Saludo.hs_kernel (row_bytes (fila_zero s))

lo_enviado :
    (to : Stream) (s : ℕ) (cant : ℤ) (tabla : List ℕ)
    → stream_send_buffer
        (cant_max_por_pcb (hasta_fila (to ++ marco Saludo.hs_aux []) s) cant)
        Saludo.hs_aux
        tabla
      ≡ to ++ (marco Saludo.hs_aux [] ++ inicio_bytes (fila_zero s) cant tabla)
unfolding cant_max_por_pcb hasta_fila inicio_bytes buffer_create
lo_enviado to s cant tabla =
    rw
      (
        pack_int-append [] cant,
        marco_lem Saludo.hs_aux (int_bytes cant) (hasta_fila (to ++ marco Saludo.hs_aux []) s)
            (omega arith),
      )
      (rw
        (marco_lem Saludo.hs_aux tabla
          (hasta_fila (to ++ marco Saludo.hs_aux []) s ++ marco Saludo.hs_aux (int_bytes cant))
          (omega arith))
        (simp (append_assoc, append-nil)))

segmento_zero_lem :
    (B : Bitarray) (tam rta : ℕ) (por_valor : PorValor) (s : ℕ) (b : B.Rep) (to : Stream)
    → Todos B b false 0 tam
    → 0 < tam
    → s ≤ tam
    → segmento_zero B tam rta por_valor (inicializacion_memoria B b) (pos s) to
      ≡ ok (con_zero B b s, hasta_fila to s)
unfolding hasta_fila segmento_zero inicializacion_memoria enviar_headers row_bytes buffer_create
segmento_zero_lem B tam rta por_valor s b to limpio h l =
    rw (primer_segmento B tam b limpio por_valor rta s h l, bind)
      (rw (saludo_marco to Header.general (omega arith)) (
        rw
          (marco_lem Saludo.hs_kernel (row_bytes (fila_zero s)) (to ++ marco Header.general [])
            (omega arith))
          refl))

kernel_aceptado :
    (rest to : Stream)
    → handshake Saludo.hs_kernel (stream_send_empty_buffer [] Saludo.hs_kernel ++ rest) to
      ≡ ok (pos 1, rest, to ++ marco Saludo.hs_aux [])
kernel_aceptado rest to =
    rw (saludo_marco [] Saludo.hs_kernel (omega arith))
      (saludo_aceptado Saludo.hs_kernel rest to (omega arith))

tabla_bytes : ℕ → List ℕ
tabla_bytes s = int_bytes (pos 1) ++ table_bytes (fila_zero s ∷ [])

largo_tabla : (s : ℕ) → length (tabla_bytes s) ≡ 24
unfolding tabla_bytes table_bytes row_bytes
largo_tabla s = simp (append-nil, length-append, length-int_bytes, largo_fila) refl

tabla_empaquetada :
    (s : ℕ)
    → let ts = fila_zero s ∷ [] in
      empaquetar_lista_segmentos (pack_int buffer_create (pos (length ts))) (length ts) ts
      ≡ ok (tabla_bytes s)
unfolding buffer_create tabla_bytes
tabla_empaquetada s =
    empaquetar_lista_segmentos-append (pack_int [] (pos 1)) (fila_zero s ∷ [])
    ∙ ap (λ b. ok (b ++ table_bytes (fila_zero s ∷ []))) (pack_int-append [] (pos 1))

-- The memory starts on a bit array with no bit set, and the kernel greets it. Segment zero, of a
-- size `s` that the memory holds and an `int` can, is the table's one row, at address 0. What the
-- memory sends is read by the kernel to the end of it: the kernel then has that row as its
-- segment zero, and the number of segments that the memory's configuration says. The block that
-- the kernel allocates for a row, `malloc(12)`, has room for the row's 20 bytes.
pub arranque_lem :
    (B : Bitarray) (tam rta s : ℕ) (por_valor : PorValor) (usable : ℕ → ℕ) (b : B.Rep) (cant : ℤ)
    (rest to : Stream)
    → Todos B b false 0 tam
    → 0 < tam
    → s ≤ tam
    → s < 2 ^ 31
    → 20 ≤ usable 12
    → IsInt cant
    → (m : Memoria B) × (bytes : List ℕ) × (atender_arranque B tam rta por_valor
          (inicializacion_memoria B b)
          (pos s)
          cant
          (stream_send_empty_buffer [] Saludo.hs_kernel ++ rest)
          to
        ≡ ok (m, rest, to ++ bytes))
      × (m.tabla ≡ fila_zero s ∷ [])
      × Decodes (conectar_memoria usable) bytes (fila_zero s, cant)
unfolding atender_arranque cant_max_por_pcb inicio_bytes buffer_create
arranque_lem B tam rta s por_valor usable b cant rest to limpio h l i u c = (
  con_zero B b s,
  marco Saludo.hs_aux [] ++ inicio_bytes (fila_zero s) cant (tabla_bytes s),
  rw (kernel_aceptado rest to, bind)
      (rw
        (segmento_zero_lem B tam rta por_valor s b (to ++ marco Saludo.hs_aux []) limpio h l, bind)
        (ap
            (λ o. bind o (λ t. ok (
              con_zero B b s,
              rest,
              stream_send_buffer
                  (cant_max_por_pcb (hasta_fila (to ++ marco Saludo.hs_aux []) s) cant)
                  Saludo.hs_aux t,
            )))
            (tabla_empaquetada s)
          ∙ ap (λ l. ok (con_zero B b s, rest, l)) (lo_enviado to s cant (tabla_bytes s)))),
  refl,
  conexion-Decodes usable (fila_zero s) cant (tabla_bytes s) u
      (record {
        id = omega arith;
        pid = omega arith;
        id_seg_pcb = omega arith;
        limite = i;
        base = omega arith;
      })
      c (omega (arith, largo_tabla s)),
)
