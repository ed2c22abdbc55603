-- ===== src/Utils/Frames.antt =====
-- utils.c: the frames on a socket (a header byte, the size, the buffer) and `handshake`. A stream
-- is the bytes that `recv` has still to deliver; a stream with too few bytes is a lost connection.
pub mod Laws
pub mod Marcos
use tp_so20231c.Common.{
  ℕ, ◌+◌, ◌%◌, ◌^◌, List, [], ◌∷◌, ◌++◌, Option, none, some, Outcome, ok, exit, fault, ◌==◌, ltb,
  take, drop, length, if◌then◌else◌,
}
use tp_so20231c.Common.Int.{ℤ, pos, negsuc}
use tp_so20231c.Utils.Saludo
use tp_so20231c.Utils.Buffer.{Buffer, Unpack, ◌>>=◌, ◌>>◌, pure, u32_bytes, of_bytes, buffer_create}

abbrev pub Stream : Type 0
Stream = List ℕ

-- __stream_create: `header` is an `uint8_t`.
unfoldable pub stream_create : ℕ → Buffer → List ℕ
stream_create header buffer = header % 256 ∷ (u32_bytes (length buffer) ++ buffer)

-- What stands on the other side's stream after a `send`.
unfoldable pub stream_send_buffer : Stream → ℕ → Buffer → Stream
unfolding stream_create
stream_send_buffer to header buffer = to ++ stream_create header buffer

unfoldable pub stream_send_empty_buffer : Stream → ℕ → Stream
unfolding stream_send_buffer buffer_create
stream_send_empty_buffer to header = stream_send_buffer to header buffer_create

-- `recv` of the one byte. With none left the variable is returned as it was: that is a fault.
unfoldable pub stream_recv_header : Unpack ℕ
stream_recv_header [] = fault
stream_recv_header (header ∷ from) = ok (header, from)

-- The size, then as many bytes; no byte of a size is `exit(-1)`.
unfoldable pub stream_recv_buffer : Unpack Buffer
stream_recv_buffer from =
    if length from == 0
    then exit
    else if ltb (length from) 4
    then fault
    else let size = of_bytes (take 4 from) in
      let resto = drop 4 from in
      if ltb (length resto) size then fault else ok (take size resto, drop size resto)

unfoldable pub stream_recv_empty_buffer : Unpack (Unit {0})
unfolding stream_recv_buffer
stream_recv_empty_buffer = do _ ← stream_recv_buffer; pure tt

unfoldable pub recibir_saludo : Unpack ℕ
unfolding stream_recv_header stream_recv_empty_buffer
recibir_saludo = do recibido ← stream_recv_header; stream_recv_empty_buffer; pure recibido

-- The server's side: the stream that comes in, and the one that goes out.
unfoldable pub handshake : ℕ → Stream → Stream → Outcome (ℤ × Stream × Stream)
unfolding recibir_saludo stream_send_empty_buffer
handshake hs from to = elim (recibir_saludo from) [
  | ok (recibido, from') ↦
      if recibido == hs
      then ok (pos 1, from', stream_send_empty_buffer to Saludo.hs_aux)
      else ok (negsuc 0, from', to)
  | exit ↦ exit
  | fault ↦ fault
]

-- A step on the buffer of a frame, whose rest is dropped with it.
abbrev pub en_buffer : {A : Type 0} → Unpack A → Buffer → Unpack A
en_buffer m buffer from = elim (m buffer) [ ok (a, _) ↦ ok (a, from) | exit ↦ exit | fault ↦ fault ]
