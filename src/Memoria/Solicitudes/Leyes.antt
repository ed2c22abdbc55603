-- ===== src/Memoria/Solicitudes/Leyes.antt =====
-- What a write of the CPU leaves in the main memory, and what a read then sends.
use tp_so20231c.Common.{
  ℕ, zero, suc, ◌+◌, ◌≤◌, ◌<◌, ◌^◌, ◌≡◌, refl, ap, sym, ◌∙◌, List, [], ◌∷◌, ◌++◌, append-nil, ◌⊎◌,
  inl, inr, ok, fault, bind, Text, NoNul, take, length, length-append, length-take, arith,
}
use tp_so20231c.Common.Int.{ℤ, pos}
use tp_so20231c.Utils.Flag
use tp_so20231c.Utils.Saludo
use tp_so20231c.Utils.Buffer.{Buffer, u32_bytes, buffer_create, buffer_pack_string, c_string}
use tp_so20231c.Utils.Buffer.Decodes.{Decodes, bind-Decodes, bind_pure-Decodes}
use tp_so20231c.Utils.Buffer.Laws.{
  IsInt, int_bytes, int_bytes-Decodes, text_bytes, packing, length-int_bytes, length-text_bytes,
  text_bytes_lem, unpack_u32-Decodes, buffer_unpack-Decodes,
}
use tp_so20231c.Utils.Frames.{Stream, stream_send_buffer, stream_send_empty_buffer}
use tp_so20231c.Utils.Frames.Laws.{stream_recv_buffer-Decodes}
use tp_so20231c.Memoria.Solicitudes.{
  leer_bloque, escribir_bloque, desempaquetar_bloque, pedir_escritura, pedir_lectura,
  recibir_escritura, recibir_lectura, m_write, f_read,
}
use tp_so20231c.Memoria.Solicitudes.Copias.{
  Escrito, copia, copia-Escrito, escribir_bloque_lem, leer_bloque_lem, leer-copia,
}

-- The size and the buffer of a frame, behind its header.
abbrev pub cuerpo : Buffer → List ℕ
cuerpo b = u32_bytes (length b) ++ b

escritura_bytes : ℤ → ℤ → ℤ → Text → List ℕ
escritura_bytes df size pid s = int_bytes df ++ (int_bytes size ++ (int_bytes pid ++ text_bytes s))

unfoldable pub lectura_bytes : ℤ → ℤ → ℤ → List ℕ
lectura_bytes df size pid = int_bytes df ++ (int_bytes size ++ int_bytes pid)

pedir_escritura-bytes :
    (df size pid : ℤ) (s : Text) → pedir_escritura df size pid s ≡ escritura_bytes df size pid s
unfolding pedir_escritura escritura_bytes buffer_create
pedir_escritura-bytes df size pid s = simp packing

pub pedir_lectura-bytes : (df size pid : ℤ) → pedir_lectura df size pid ≡ lectura_bytes df size pid
unfolding pedir_lectura lectura_bytes buffer_create
pedir_lectura-bytes df size pid = simp packing

bloque-Decodes :
    (s : Text) → length s + 1 < 2 ^ 32 → Decodes desempaquetar_bloque (text_bytes s) (s ++ 0 ∷ [])
unfolding desempaquetar_bloque
bloque-Decodes s h = rw (text_bytes_lem s) (
    bind-Decodes _ (unpack_u32-Decodes _ (omega arith))
      (buffer_unpack-Decodes _ _ (omega (arith, length-append s (0 ∷ []))) (omega arith)))

escritura-Decodes :
    (df size pid : ℤ) (s : Text)
    → IsInt df
    → IsInt size
    → IsInt pid
    → length s + 1 < 2 ^ 32
    → Decodes recibir_escritura (escritura_bytes df size pid s) (df, size, s ++ 0 ∷ [])
unfolding recibir_escritura escritura_bytes
escritura-Decodes df size pid s a b c h = bind-Decodes _ (int_bytes-Decodes df a) (
    bind-Decodes _ (int_bytes-Decodes size b)
      (bind-Decodes _ (int_bytes-Decodes pid c) (bind_pure-Decodes _ (bloque-Decodes s h) refl)))

lectura-Decodes :
    (df size pid : ℤ)
    → IsInt df
    → IsInt size
    → IsInt pid
    → Decodes recibir_lectura (lectura_bytes df size pid) (df, size)
unfolding recibir_lectura lectura_bytes
lectura-Decodes df size pid a b c =
    bind-Decodes _ (int_bytes-Decodes df a) (
      bind-Decodes _ (int_bytes-Decodes size b)
        (bind_pure-Decodes _ (int_bytes-Decodes pid c) refl))

escritura_cabe :
    (df size pid : ℤ) (s : Text)
    → length s + 17 < 2 ^ 32
    → length (escritura_bytes df size pid s) < 2 ^ 32
unfolding escritura_bytes
escritura_cabe df size pid s h =
    simp (length-append, length-int_bytes, length-text_bytes) (omega arith)

lectura_cabe : (df size pid : ℤ) → length (lectura_bytes df size pid) < 2 ^ 32
unfolding lectura_bytes
lectura_cabe df size pid = simp (length-append, length-int_bytes) (omega arith)

module _ (memoria : List ℕ) (rest to : Stream) (df size pid : ℤ) (s : Text) (a : IsInt df)
    (b : IsInt size) (c : IsInt pid) (corto : length s + 17 < 2 ^ 32) where
  recibida : recibir_escritura (escritura_bytes df size pid s) ≡ ok ((df, size, s ++ 0 ∷ []), [])
  recibida = rw append-nil at ((escritura-Decodes df size pid s a b c (omega arith)).reads [])

  al_recibir :
      m_write memoria (cuerpo (pedir_escritura df size pid s) ++ rest) to
      ≡ bind (leer_bloque (s ++ 0 ∷ []) (pos 0) size) (λ datos.
        bind
          (escribir_bloque memoria df datos)
          (λ memoria'. ok (memoria', rest, stream_send_empty_buffer to Saludo.hs_aux)))
  unfolding m_write
  al_recibir = rw (pedir_escritura-bytes df size pid s) (
      rw ((stream_recv_buffer-Decodes _ (escritura_cabe df size pid s corto)).reads rest, bind)
        (rw (recibida, bind) refl))

al_leer :
    (ultimo : ℕ) (memoria : List ℕ) (rest to : Stream) (df size pid : ℤ)
    → IsInt df
    → IsInt size
    → IsInt pid
    → f_read ultimo memoria (cuerpo (pedir_lectura df size pid) ++ rest) to
      ≡ bind (leer_bloque memoria df size) (λ datos.
        bind (c_string (datos ++ ultimo ∷ [])) (λ value. ok (
          memoria,
          rest,
          stream_send_buffer to Flag.i_read (buffer_pack_string buffer_create value),
        )))
unfolding f_read
al_leer ultimo memoria rest to df size pid a b c = rw (pedir_lectura-bytes df size pid) (
    rw ((stream_recv_buffer-Decodes _ (lectura_cabe df size pid)).reads rest, bind)
      (rw (recibida, bind) refl))
  where
    recibida : recibir_lectura (lectura_bytes df size pid) ≡ ok ((df, size), [])
    recibida = rw append-nil at ((lectura-Decodes df size pid a b c).reads [])

largo_nul : (s : Text) → length (s ++ 0 ∷ []) ≡ length s + 1
largo_nul s = length-append s (0 ∷ [])

-- A write of n bytes of a text at address d: when the text with its NUL has n bytes and the memory
-- holds d + n, the bytes from d on are the first n of them, all others are as they were, and the
-- answer is `hs_aux`; otherwise the copy leaves one of the two blocks.
pub m_write_lem :
    (memoria : List ℕ) (rest to : Stream) (d n : ℕ) (pid : ℤ) (s : Text)
    → d < 2 ^ 31
    → n < 2 ^ 31
    → IsInt pid
    → length s + 17 < 2 ^ 32
    → let from = cuerpo (pedir_escritura (pos d) (pos n) pid s) ++ rest in
      let datos = take n (s ++ 0 ∷ []) in
      ((n ≤ length s + 1)
        × (d + n ≤ length memoria)
        × ((m : List ℕ) × (m_write memoria from to
              ≡ ok (m, rest, stream_send_empty_buffer to Saludo.hs_aux))
            × Escrito memoria d datos m))
      ⊎ (((length s + 1 < n) ⊎ (length memoria < d + n)) × (m_write memoria from to ≡ fault))
m_write_lem memoria rest to d n pid s a b c corto =
    rw (al_recibir memoria rest to (pos d) (pos n) pid s a b c corto)
      (elim (leer_bloque_lem (s ++ 0 ∷ []) 0 n) [
        | inr h ↦ inr (inl (omega (arith, largo_nul s, h.0)), rw (h.1, bind) refl)
        | inl h ↦
            let l : length (take n (s ++ 0 ∷ [])) ≡ n =
              omega (arith, length-take n (s ++ 0 ∷ []), h.0) in
            elim (escribir_bloque_lem memoria d (take n (s ++ 0 ∷ []))) [
              | inr k ↦ inr (inr (omega (arith, k.0, l)), rw (h.1, bind) (rw (k.1, bind) refl))
              | inl k ↦ inl (
                omega (arith, largo_nul s, h.0),
                omega (arith, k.0, l),
                (
                  copia memoria d (take n (s ++ 0 ∷ [])),
                  rw (h.1, bind) (rw (k.1, bind) refl),
                  copia-Escrito memoria d (take n (s ++ 0 ∷ [])) (k.0),
                ),
              )
            ]
      ])

-- A text in front of its NUL and another byte.
c_string-ultimo : (s : Text) (ultimo : ℕ) → NoNul s → c_string ((s ++ 0 ∷ []) ++ ultimo ∷ []) ≡ ok s
unfolding c_string
c_string-ultimo [] ultimo h = refl
c_string-ultimo (x ∷ s) ultimo h = ground (arith, c_string-ultimo s ultimo (h.1))

toma_todo : (l : List ℕ) (n : ℕ) → length l ≡ n → take n l ≡ l
toma_todo [] zero e = refl
toma_todo [] (suc n) e = refl
toma_todo (x ∷ l) zero e = absurd (omega arith)
toma_todo (x ∷ l) (suc n) e = ap (λ k. x ∷ k) (toma_todo l n (omega arith))

-- The two copies when they are inside.
bloque_entero :
    (s : Text)
    → leer_bloque (s ++ 0 ∷ []) (pos 0) (pos (length s + 1))
      ≡ ok (take (length s + 1) (s ++ 0 ∷ []))
bloque_entero s = elim (leer_bloque_lem (s ++ 0 ∷ []) 0 (length s + 1)) [
  | inl h ↦ h.1
  | inr h ↦ absurd (omega (arith, largo_nul s, h.0))
]

entra :
    (m : List ℕ) (d : ℕ) (datos : List ℕ)
    → d + length datos ≤ length m
    → escribir_bloque m (pos d) datos ≡ ok (copia m d datos)
entra m d datos h = elim (escribir_bloque_lem m d datos) [
  | inl k ↦ k.1
  | inr k ↦ absurd (omega (arith, k.0))
]

sale :
    (m : List ℕ) (d : ℕ) (datos : List ℕ) (n : ℕ)
    → length datos ≡ n
    → d + length datos ≤ length m
    → leer_bloque (copia m d datos) (pos d) (pos n) ≡ ok datos
sale m d datos n e h = elim (leer_bloque_lem (copia m d datos) d n) [
  | inl k ↦ k.1 ∙ ap ok (rw (sym e) (leer-copia m d datos h))
  | inr k ↦ absurd (omega (arith, e, (copia-Escrito m d datos h).largo, k.0))
]

-- A text that the CPU writes with its NUL at an address where the memory holds both is what the
-- filesystem is sent when it then reads as many bytes there, whatever byte the read puts behind
-- them.
pub escribir-leer :
    (memoria : List ℕ) (rest to rest' to' : Stream) (d ultimo : ℕ) (pid pid' : ℤ) (s : Text)
    → d < 2 ^ 31
    → length s + 1 < 2 ^ 31
    → IsInt pid
    → IsInt pid'
    → NoNul s
    → d + (length s + 1) ≤ length memoria
    → let n = length s + 1 in
      (m : List ℕ) × (m_write memoria (cuerpo (pedir_escritura (pos d) (pos n) pid s) ++ rest) to
        ≡ ok (m, rest, stream_send_empty_buffer to Saludo.hs_aux))
      × (f_read ultimo m (cuerpo (pedir_lectura (pos d) (pos n) pid') ++ rest') to'
          ≡ ok (m, rest', stream_send_buffer to' Flag.i_read (buffer_pack_string buffer_create s)))
escribir-leer memoria rest to rest' to' d ultimo pid pid' s a b c c' sin h =
    let l = largo_nul s in
    let todo = toma_todo (s ++ 0 ∷ []) (length s + 1) l in
    let m = copia memoria d (s ++ 0 ∷ []) in
    let cabe : d + length (s ++ 0 ∷ []) ≤ length memoria = omega (arith, l) in
    (
      m,
      rw (al_recibir memoria rest to (pos d) (pos (length s + 1)) pid s a b c (omega arith))
          (rw (bloque_entero s, todo, bind) (rw (entra memoria d (s ++ 0 ∷ []) cabe, bind) refl)),
      rw (al_leer ultimo m rest' to' (pos d) (pos (length s + 1)) pid' a b c') (
          rw (sale memoria d (s ++ 0 ∷ []) (length s + 1) l cabe, bind)
            (rw (c_string-ultimo s ultimo sin, bind) refl)),
    )
