-- ===== src/Memoria/Solicitudes.antt =====
-- memoria_solicitudes.c: writing into the main memory for the CPU and for the filesystem, reading
-- for the filesystem, and one turn of the thread that serves the filesystem. `memoria_Principal` is
-- its bytes. The request of a write is that of MOV_OUT in cpu/src/cpu.c.
pub mod Copias
pub mod Leyes
pub mod FileSystem
use tp_so20231c.Common.{
  ℕ, ◌+◌, List, [], ◌∷◌, ◌++◌, Outcome, ok, exit, fault, bind, Text, take, drop, length, ltb, ◌==◌,
  ◌||◌, if◌then◌else◌,
}
use tp_so20231c.Common.Int.{ℤ, pos, negsuc}
use tp_so20231c.Utils.Flag
use tp_so20231c.Utils.Saludo
use tp_so20231c.Utils.Buffer.{
  Buffer, Unpack, ◌>>=◌, pure, lift, buffer_create, buffer_unpack, unpack_u32, unpack_int, pack_int,
  buffer_pack_string, c_string,
}
use tp_so20231c.Utils.Frames.{
  Stream, stream_recv_header, stream_recv_buffer, stream_send_buffer, stream_send_empty_buffer,
}

-- The bytes of a block from an address on; a negative address or size, and an end behind that of
-- the block, are accesses outside of it.
abbrev pub leer_bloque : List ℕ → ℤ → ℤ → Outcome (List ℕ)
leer_bloque bloque (pos d) (pos n) =
    if ltb (length bloque) (d + n) then fault else ok (take n (drop d bloque))
leer_bloque bloque _ _ = fault

-- `memcpy` to the address in the main memory.
abbrev pub escribir_bloque : List ℕ → ℤ → List ℕ → Outcome (List ℕ)
escribir_bloque memoria (pos d) datos =
    if ltb (length memoria) (d + length datos)
    then fault
    else ok (take d memoria ++ (datos ++ drop (d + length datos) memoria))
escribir_bloque memoria (negsuc _) datos = fault

-- The block that `buffer_unpack_string` returns.
unfoldable pub desempaquetar_bloque : Unpack (List ℕ)
unfolding unpack_u32 buffer_unpack
desempaquetar_bloque = do len ← unpack_u32; buffer_unpack len

-- What the CPU sends for a write.
unfoldable pub pedir_escritura : ℤ → ℤ → ℤ → Text → Buffer
unfolding buffer_create pack_int buffer_pack_string
pedir_escritura direccion_fisica size pid valor =
    buffer_pack_string (pack_int (pack_int (pack_int buffer_create direccion_fisica) size) pid)
      valor

-- What the filesystem sends for a read.
unfoldable pub pedir_lectura : ℤ → ℤ → ℤ → Buffer
unfolding buffer_create pack_int
pedir_lectura direccion_fisica size pid =
    pack_int (pack_int (pack_int buffer_create direccion_fisica) size) pid

-- Address, size, pid and the block of the value.
unfoldable pub recibir_escritura : Unpack (ℤ × ℤ × List ℕ)
unfolding unpack_int desempaquetar_bloque
recibir_escritura = do
  direccion_fisica ← unpack_int
  size ← unpack_int
  _ ← unpack_int
  value ← desempaquetar_bloque
  pure (direccion_fisica, size, value)

-- The memory, the stream that comes in behind the header, and the stream that goes out.
unfoldable pub m_write : List ℕ → Stream → Stream → Outcome (List ℕ × Stream × Stream)
unfolding stream_recv_buffer recibir_escritura stream_send_empty_buffer
m_write memoria from to = bind (stream_recv_buffer from) (λ r. bind (recibir_escritura (r.0)) (λ p.
    bind (leer_bloque (p.0.2) (pos 0) (p.0.1)) (λ datos.
      bind (escribir_bloque memoria (p.0.0) datos)
        (λ memoria'. ok (memoria', r.1, stream_send_empty_buffer to Saludo.hs_aux)))))

-- `size` bytes of the buffer; `memcpy` takes a negative size for a huge one.
abbrev pub desempaquetar_datos : ℤ → Unpack (List ℕ)
desempaquetar_datos (pos n) b = buffer_unpack n b
desempaquetar_datos (negsuc _) [] = exit
desempaquetar_datos (negsuc _) (b ∷ bs) = fault

unfoldable pub recibir_datos : Unpack (ℤ × List ℕ)
unfolding unpack_int buffer_unpack
recibir_datos = do
  direccion_fisica ← unpack_int
  size ← unpack_int
  _ ← unpack_int
  value ← desempaquetar_datos size
  pure (direccion_fisica, value)

unfoldable pub f_write : List ℕ → Stream → Stream → Outcome (List ℕ × Stream × Stream)
unfolding stream_recv_buffer recibir_datos stream_send_empty_buffer
f_write memoria from to = bind (stream_recv_buffer from) (λ r. bind (recibir_datos (r.0)) (λ p.
    bind (escribir_bloque memoria (p.0.0) (p.0.1))
      (λ memoria'. ok (memoria', r.1, stream_send_empty_buffer to Saludo.hs_aux))))

unfoldable pub recibir_lectura : Unpack (ℤ × ℤ)
unfolding unpack_int
recibir_lectura = do
  direccion_fisica ← unpack_int
  size ← unpack_int
  _ ← unpack_int
  pure (direccion_fisica, size)

-- `ultimo` is the byte that `value[size] = "\0"` stores, the lowest of a pointer to a text.
unfoldable pub f_read : ℕ → List ℕ → Stream → Stream → Outcome (List ℕ × Stream × Stream)
unfolding stream_recv_buffer recibir_lectura c_string buffer_create buffer_pack_string
    stream_send_buffer
f_read ultimo memoria from to = bind (stream_recv_buffer from) (λ r.
    bind (recibir_lectura (r.0)) (λ p. bind (leer_bloque memoria (p.0.0) (p.0.1)) (λ datos.
      bind (c_string (datos ++ ultimo ∷ [])) (λ value. ok (
        memoria,
        r.1,
        stream_send_buffer to Flag.i_read (buffer_pack_string buffer_create value),
      )))))

-- One turn. The frame of another header stays on the stream.
unfoldable pub peticion_file_system :
    ℕ → List ℕ → Stream → Stream → Outcome (List ℕ × Stream × Stream)
unfolding stream_recv_header f_write f_read
peticion_file_system ultimo memoria from to = bind (stream_recv_header from) (λ h.
    if h.0 == Flag.i_write
    then f_write memoria (h.1) to
    else if h.0 == Flag.i_read
    then f_read ultimo memoria (h.1) to
    else ok (memoria, h.1, to))
