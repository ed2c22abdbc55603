-- ===== src/Utils/Frames/Laws.antt =====
-- What is sent on a stream is what is received, frame by frame.
use tp_so20231c.Common.{
  ◌⊎◌, ℕ, ◌^◌, ◌<◌, ◌≡◌, ◌≢◌, ◌%◌, refl, [], ◌∷◌, ◌++◌, append-nil, arith, ok, length, Outcome,
  length-append,
}
use tp_so20231c.Common.Int.{pos, negsuc}
use tp_so20231c.Utils.Saludo
use tp_so20231c.Utils.Buffer.{Buffer, ◌>>=◌, pure, u32_bytes, buffer_create}
use tp_so20231c.Utils.Buffer.Decodes.{Decodes, bind-Decodes, bind_pure-Decodes}
use tp_so20231c.Utils.Buffer.Laws.{take-length-append, drop-length-append, of_bytes-u32_bytes}
use tp_so20231c.Utils.Frames.{
  Stream, stream_create, stream_send_buffer, stream_send_empty_buffer, stream_recv_header,
  stream_recv_buffer, stream_recv_empty_buffer, recibir_saludo, handshake,
}

pub stream_recv_header-Decodes : (h : ℕ) → Decodes stream_recv_header (h ∷ []) h
unfolding stream_recv_header
stream_recv_header-Decodes h = record { reads = λ rest. refl }

-- A frame behind its header is read back whole, whatever is sent after it.
pub stream_recv_buffer-Decodes :
    (b : Buffer) → length b < 2 ^ 32 → Decodes stream_recv_buffer (u32_bytes (length b) ++ b) b
unfolding stream_recv_buffer u32_bytes
stream_recv_buffer-Decodes b h = record {
  reads = λ rest. ground (
    arith,
    of_bytes-u32_bytes (length b) h,
    length-append b rest,
    take-length-append b rest,
    drop-length-append b rest,
  );
}

-- The two calls by which every program reads a frame.
pub recibir : Stream → Outcome ((ℕ × Buffer) × Stream)
recibir = do header ← stream_recv_header; buffer ← stream_recv_buffer; pure (header, buffer)

pub stream_create-bytes :
    (h : ℕ) (b : Buffer) → h < 256 → stream_create h b ≡ (h ∷ []) ++ (u32_bytes (length b) ++ b)
unfolding stream_create
stream_create-bytes h b p = let e : h % 256 ≡ h = omega arith in rw e

-- What `stream_send_buffer` puts on a stream, the other side reads as the same header and the same
-- buffer, with the frames behind it untouched: for a header of 8 bits and a buffer below 4 GiB.
pub recibir-stream_send_buffer :
    (h : ℕ) (b : Buffer)
    → h < 256
    → length b < 2 ^ 32
    → Decodes recibir (stream_send_buffer [] h b) (h, b)
unfolding recibir stream_send_buffer
recibir-stream_send_buffer h b p q = rw (stream_create-bytes h b p) (
    bind-Decodes _ (stream_recv_header-Decodes h)
      (bind_pure-Decodes _ (stream_recv_buffer-Decodes b q) refl))

pub stream_recv_empty_buffer-Decodes : Decodes stream_recv_empty_buffer (u32_bytes 0) tt
unfolding stream_recv_empty_buffer u32_bytes
stream_recv_empty_buffer-Decodes =
    bind_pure-Decodes _ (rw append-nil at (stream_recv_buffer-Decodes [] (omega arith))) refl

pub saludo-Decodes : (h : ℕ) → h < 256 → Decodes recibir_saludo (stream_send_empty_buffer [] h) h
unfolding recibir_saludo stream_send_empty_buffer stream_send_buffer buffer_create
saludo-Decodes h p =
    rw (stream_create-bytes h [] p, append-nil)
      (bind-Decodes _ (stream_recv_header-Decodes h)
        (bind_pure-Decodes _ stream_recv_empty_buffer-Decodes refl))

-- A server answers the greeting that it expects with `hs_aux` and returns 1; at any other greeting
-- it returns -1 and sends nothing. Either way the greeting's frame is taken off the stream.
pub handshake_lem :
    (hs recibido : ℕ) (rest to : Stream)
    → recibido < 256
    → let from = stream_send_empty_buffer [] recibido ++ rest in
      ((recibido ≡ hs)
        × (handshake hs from to ≡ ok (pos 1, rest, stream_send_empty_buffer to Saludo.hs_aux)))
      ⊎ ((recibido ≢ hs) × (handshake hs from to ≡ ok (negsuc 0, rest, to)))
unfolding handshake
handshake_lem hs recibido rest to p =
    rw ((saludo-Decodes recibido p).reads rest, handshake) (ground arith)
