-- ===== src/Utils/Frames/Marcos.antt =====
-- Frames as bytes: a frame in front of what is read next, with or without something in it, and a
-- step on the buffer of a frame.
use tp_so20231c.Common.{
  refl, ok, ℕ, ◌<◌, ◌^◌, ◌≡◌, ap, sym, List, [], ◌∷◌, ◌++◌, append_assoc, append-nil, length, true,
  ◌==◌, arith,
}
use tp_so20231c.Common.Int.{pos}
use tp_so20231c.Utils.Saludo
use tp_so20231c.Utils.Buffer.{pure, Buffer, Unpack, ◌>>=◌, ◌>>◌, buffer_create, u32_bytes}
use tp_so20231c.Utils.Buffer.Decodes.{Decodes, bind-Decodes}
use tp_so20231c.Utils.Frames.{
  Stream, stream_send_buffer, stream_send_empty_buffer, stream_recv_header, stream_recv_buffer,
  stream_recv_empty_buffer, recibir_saludo, en_buffer, handshake,
}
use tp_so20231c.Utils.Frames.Laws.{
  stream_recv_header-Decodes, stream_recv_buffer-Decodes, stream_recv_empty_buffer-Decodes,
  stream_create-bytes, saludo-Decodes,
}

-- One frame: its header, and the size with the buffer.
unfoldable pub marco : ℕ → Buffer → List ℕ
marco h b = (h ∷ []) ++ (u32_bytes (length b) ++ b)

pub marco_lem :
    (h : ℕ) (b : Buffer) (to : Stream) → h < 256 → stream_send_buffer to h b ≡ to ++ marco h b
unfolding stream_send_buffer marco
marco_lem h b to p = ap (λ l. to ++ l) (stream_create-bytes h b p)

-- A frame in front of what is read next.
pub marco-Decodes :
    {A : Type 0} (h : ℕ) (b : Buffer) (f : ℕ → Buffer → Unpack A) {bytes : List ℕ} {a : A}
    → length b < 2 ^ 32
    → Decodes (f h b) bytes a
    → Decodes (stream_recv_header >>= λ x. stream_recv_buffer >>= λ y. f x y) (marco h b ++ bytes) a
unfolding marco
marco-Decodes h b f {bytes} l d = rw (append_assoc (h ∷ []) (u32_bytes (length b) ++ b) bytes) (
    bind-Decodes _ (stream_recv_header-Decodes h)
      (bind-Decodes (f h) (stream_recv_buffer-Decodes b l) d))

-- The same for a frame with nothing in it.
pub marco_vacio-Decodes :
    {A : Type 0} (h : ℕ) (f : ℕ → Unpack A) {bytes : List ℕ} {a : A}
    → Decodes (f h) bytes a
    → Decodes (stream_recv_header >>= λ x. stream_recv_empty_buffer >> f x) (marco h [] ++ bytes) a
unfolding marco
marco_vacio-Decodes h f {bytes} d =
    rw (append_assoc (h ∷ []) (u32_bytes 0 ++ []) bytes, append-nil)
      (bind-Decodes _ (stream_recv_header-Decodes h)
        (bind-Decodes (λ _. f h) stream_recv_empty_buffer-Decodes d))

pub en_buffer-Decodes :
    {A B : Type 0} (m : Unpack A) (b : Buffer) (f : A → Unpack B) {bytes : List ℕ} {a : A} {c : B}
    → Decodes m b a
    → Decodes (f a) bytes c
    → Decodes (en_buffer m b >>= f) bytes c
en_buffer-Decodes m b f {a = a} d e = record {
  reads = λ rest. rw (rw append-nil at (d.reads []), ◌>>=◌) (e.reads rest);
}

-- The frame of a greeting.
pub saludo_marco :
    (to : Stream) (h : ℕ) → h < 256 → stream_send_empty_buffer to h ≡ to ++ marco h []
unfolding stream_send_empty_buffer buffer_create
saludo_marco to h p = marco_lem h [] to p

pub marco_saludo-Decodes : (h : ℕ) → h < 256 → Decodes recibir_saludo (marco h []) h
marco_saludo-Decodes h p = rw (sym (saludo_marco [] h p)) (saludo-Decodes h p)

-- A last frame, of which one step reads the buffer.
pub marco_ultimo-Decodes :
    {A B : Type 0} (h : ℕ) (b : Buffer) (m : Unpack A) (g : ℕ → A → B) {a : A} {c : B}
    → length b < 2 ^ 32
    → Decodes m b a
    → g h a ≡ c
    → Decodes
        (stream_recv_header >>= λ x.
          stream_recv_buffer >>= λ y. en_buffer m y >>= λ z. pure (g x z))
        (marco h b)
        c
marco_ultimo-Decodes h b m g {a} {c} l d e = rw append-nil at (
    marco-Decodes h b (λ x y. en_buffer m y >>= λ z. pure (g x z)) {bytes = []} l
      (en_buffer-Decodes m b (λ z. pure (g h z)) d
        (record { reads = λ rest. ap (λ x. ok (x, rest)) e })))

-- The greeting that a server expects, as `handshake_lem` says it, with the answer as a frame.
pub saludo_aceptado :
    (hs : ℕ) (rest to : Stream)
    → hs < 256
    → handshake hs (marco hs [] ++ rest) to ≡ ok (pos 1, rest, to ++ marco Saludo.hs_aux [])
unfolding handshake
saludo_aceptado hs rest to p =
    let e : (hs == hs) ≡ true = ground arith in
    rw ((marco_saludo-Decodes hs p).reads rest, handshake)
      (rw (e, saludo_marco to Saludo.hs_aux (omega arith)) refl)
