-- ===== src/Tests/Solicitudes.antt =====
-- memoria_solicitudes.c: a memory of eight positions.
use tp_so20231c.Common.{
  ℕ, ◌+◌, ◌≤◌, ◌<◌, ◌≡◌, refl, List, [], ◌∷◌, ◌++◌, ◌⊎◌, ok, fault, Text, take, length, arith,
}
use tp_so20231c.Common.Int.{pos}
use tp_so20231c.Utils.Flag
use tp_so20231c.Utils.Saludo
use tp_so20231c.Utils.Buffer.{
  u32_bytes, of_bytes, signed32, pattern32, buffer_create, buffer_pack, buffer_pack_string,
}
use tp_so20231c.Utils.Frames.{stream_send_buffer, stream_send_empty_buffer}
use tp_so20231c.Memoria.Solicitudes.{
  m_write, f_read, pedir_escritura, pedir_lectura, peticion_file_system,
}
use tp_so20231c.Memoria.Solicitudes.Copias.{Escrito}
use tp_so20231c.Memoria.Solicitudes.Leyes.{cuerpo, m_write_lem, escribir-leer}
use tp_so20231c.Memoria.Solicitudes.FileSystem.{peticion_file_system_lem}

abbrev ocho : List ℕ
ocho = 0 ∷ 0 ∷ 0 ∷ 0 ∷ 0 ∷ 0 ∷ 0 ∷ 9 ∷ []

abbrev ab : Text
ab = 65 ∷ 66 ∷ []

abbrev dos : List ℕ
dos = 5 ∷ 6 ∷ []

-- "AB" in three bytes at address 2.
escrita :
    m_write ocho (cuerpo (pedir_escritura (pos 2) (pos 3) (pos 1) ab)) []
    ≡ ok (0 ∷ 0 ∷ 65 ∷ 66 ∷ 0 ∷ 0 ∷ 0 ∷ 9 ∷ [], [], 1 ∷ 0 ∷ 0 ∷ 0 ∷ 0 ∷ [])
unfolding m_write pedir_escritura stream_send_empty_buffer u32_bytes of_bytes signed32 pattern32
escrita = refl

-- Four bytes of a text of two.
corta : m_write ocho (cuerpo (pedir_escritura (pos 2) (pos 4) (pos 1) ab)) [] ≡ fault
unfolding m_write pedir_escritura u32_bytes of_bytes signed32 pattern32
corta = refl

ignorada : peticion_file_system 0 ocho (9 ∷ 7 ∷ []) [] ≡ ok (ocho, 7 ∷ [], [])
unfolding peticion_file_system
ignorada = refl

m_write_example :
    let from = cuerpo (pedir_escritura (pos 2) (pos 3) (pos 1) ab) ++ [] in
    let datos = take 3 (ab ++ 0 ∷ []) in
    ((3 ≤ length ab + 1)
      × (2 + 3 ≤ length ocho)
      × ((m : List ℕ) × (m_write ocho from []
            ≡ ok (m, [], stream_send_empty_buffer [] Saludo.hs_aux))
          × Escrito ocho 2 datos m))
    ⊎ (((length ab + 1 < 3) ⊎ (length ocho < 2 + 3)) × (m_write ocho from [] ≡ fault))
m_write_example =
    m_write_lem ocho [] [] 2 3 (pos 1) ab (omega arith) (omega arith) (omega arith) (omega arith)

escribir-leer_example :
    (m : List ℕ) × (m_write ocho
        (cuerpo (pedir_escritura (pos 2) (pos (length ab + 1)) (pos 1) ab) ++ [])
        []
      ≡ ok (m, [], stream_send_empty_buffer [] Saludo.hs_aux))
    × (f_read 48 m (cuerpo (pedir_lectura (pos 2) (pos (length ab + 1)) (pos 4)) ++ []) []
        ≡ ok (m, [], stream_send_buffer [] Flag.i_read (buffer_pack_string buffer_create ab)))
escribir-leer_example =
    escribir-leer ocho [] [] [] [] 2 48 (pos 1) (pos 4) ab (omega arith) (omega arith) (omega arith)
      (omega arith) (ground arith) (omega arith)

turno_file_system_example :
    let pedido = cuerpo (buffer_pack (pedir_lectura (pos 4) (pos (length dos)) (pos 1)) dos) in
    let turno = peticion_file_system 48 ocho (Flag.i_write ∷ (pedido ++ [])) [] in
    ((m : List ℕ) × (turno ≡ ok (m, [], stream_send_empty_buffer [] Saludo.hs_aux))
      × Escrito ocho 4 dos m)
    ⊎ ((length ocho < 4 + length dos) × (turno ≡ fault))
turno_file_system_example =
    peticion_file_system_lem 48 ocho [] [] 4 (pos 1) dos (omega arith) (omega arith) (omega arith)
      (omega arith)
