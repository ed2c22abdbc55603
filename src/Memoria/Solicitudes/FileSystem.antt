-- ===== src/Memoria/Solicitudes/FileSystem.antt =====
-- A turn of the thread that serves the filesystem.
use tp_so20231c.Common.{
  ℕ, ◌+◌, ◌<◌, ◌^◌, ◌≡◌, refl, ◌∙◌, List, [], ◌∷◌, ◌++◌, append_assoc, append-nil, ◌⊎◌, inl, inr,
  ok, fault, bind, length, length-append, arith,
}
use tp_so20231c.Common.Int.{ℤ, pos}
use tp_so20231c.Utils.Flag
use tp_so20231c.Utils.Saludo
use tp_so20231c.Utils.Buffer.{buffer_pack}
use tp_so20231c.Utils.Buffer.Decodes.{Decodes, bind-Decodes, bind_pure-Decodes}
use tp_so20231c.Utils.Buffer.Laws.{
  IsInt, int_bytes, int_bytes-Decodes, buffer_unpack-Decodes, length-int_bytes,
}
use tp_so20231c.Utils.Frames.{Stream, stream_send_empty_buffer, stream_recv_header}
use tp_so20231c.Utils.Frames.Laws.{stream_recv_buffer-Decodes}
use tp_so20231c.Memoria.Solicitudes.{
  escribir_bloque, pedir_lectura, recibir_datos, f_write, peticion_file_system,
}
use tp_so20231c.Memoria.Solicitudes.Copias.{Escrito, copia, copia-Escrito, escribir_bloque_lem}
use tp_so20231c.Memoria.Solicitudes.Leyes.{cuerpo, lectura_bytes, pedir_lectura-bytes}

datos_bytes : ℤ → ℤ → ℤ → List ℕ → List ℕ
datos_bytes df size pid datos = int_bytes df ++ (int_bytes size ++ (int_bytes pid ++ datos))

pedido-bytes :
    (df size pid : ℤ) (datos : List ℕ)
    → buffer_pack (pedir_lectura df size pid) datos ≡ datos_bytes df size pid datos
unfolding buffer_pack datos_bytes lectura_bytes
pedido-bytes df size pid datos = rw (pedir_lectura-bytes df size pid) (simp append_assoc)

datos-Decodes :
    (df pid : ℤ) (datos : List ℕ)
    → IsInt df
    → IsInt pid
    → 0 < length datos
    → length datos < 2 ^ 31
    → Decodes recibir_datos (datos_bytes df (pos (length datos)) pid datos) (df, datos)
unfolding recibir_datos datos_bytes
datos-Decodes df pid datos a c h k = bind-Decodes _ (int_bytes-Decodes df a) (
    bind-Decodes _ (int_bytes-Decodes _ k) (
      bind-Decodes _ (int_bytes-Decodes pid c)
        (bind_pure-Decodes _ (buffer_unpack-Decodes _ datos refl h) refl)))

datos_caben :
    (df size pid : ℤ) (datos : List ℕ)
    → length datos < 2 ^ 31
    → length (datos_bytes df size pid datos) < 2 ^ 32
unfolding datos_bytes
datos_caben df size pid datos h = simp (length-append, length-int_bytes) (omega arith)

al_escribir :
    (memoria : List ℕ) (rest to : Stream) (df pid : ℤ) (datos : List ℕ)
    → IsInt df
    → IsInt pid
    → 0 < length datos
    → length datos < 2 ^ 31
    → f_write memoria
        (cuerpo (buffer_pack (pedir_lectura df (pos (length datos)) pid) datos) ++ rest)
        to
      ≡ bind
          (escribir_bloque memoria df datos)
          (λ memoria'. ok (memoria', rest, stream_send_empty_buffer to Saludo.hs_aux))
unfolding f_write
al_escribir memoria rest to df pid datos a c h k =
    rw (pedido-bytes df (pos (length datos)) pid datos) (
      rw ((stream_recv_buffer-Decodes _ (datos_caben df _ pid datos k)).reads rest, bind)
        (rw (recibido, bind) refl))
  where
    recibido : recibir_datos (datos_bytes df (pos (length datos)) pid datos) ≡ ok ((df, datos), [])
    recibido = rw append-nil at ((datos-Decodes df pid datos a c h k).reads [])

-- A turn at a request to write at least one byte: where the memory holds them, they stand at the address
-- and all else is as it was, and the answer is `hs_aux`; otherwise the copy leaves the memory.
pub peticion_file_system_lem :
    (ultimo : ℕ) (memoria : List ℕ) (rest to : Stream) (d : ℕ) (pid : ℤ) (datos : List ℕ)
    → d < 2 ^ 31
    → IsInt pid
    → 0 < length datos
    → length datos < 2 ^ 31
    → let pedido = cuerpo (buffer_pack (pedir_lectura (pos d) (pos (length datos)) pid) datos) in
      let turno = peticion_file_system ultimo memoria (Flag.i_write ∷ (pedido ++ rest)) to in
      ((m : List ℕ) × (turno ≡ ok (m, rest, stream_send_empty_buffer to Saludo.hs_aux))
        × Escrito memoria d datos m)
      ⊎ ((length memoria < d + length datos) × (turno ≡ fault))
unfolding peticion_file_system stream_recv_header
peticion_file_system_lem ultimo memoria rest to d pid datos a c h k =
    elim (escribir_bloque_lem memoria d datos) [
      | inl e ↦ inl (
        copia memoria d datos,
        al_escribir memoria rest to (pos d) pid datos a c h k ∙ rw (e.1, bind) refl,
        copia-Escrito memoria d datos (e.0),
      )
      | inr e ↦
          inr (e.0, al_escribir memoria rest to (pos d) pid datos a c h k ∙ rw (e.1, bind) refl)
    ]
