-- ===== src/Filesystem/Servidor.antt =====
-- filesystem.c: the directory of the control blocks, the bitmap when the program starts, and one
-- turn of `atenderKernel`.
use tp_so20231c.Common.{
  ℕ, List, [], ◌∷◌, Option, none, some, Bool, true, false, Outcome, ok, fault, bind, Text, codes,
  str_eq, ◌==◌, if◌then◌else◌,
}
use tp_so20231c.Common.Int.{ℤ, pos}
use tp_so20231c.Utils.Flag
use tp_so20231c.Utils.Header
use tp_so20231c.Utils.Saludo
use tp_so20231c.Utils.Types.{RtaKernelFs}
use tp_so20231c.Utils.Buffer.{Unpack, ◌>>=◌, pure, buffer_create, unpack_int, pack_int}
use tp_so20231c.Utils.Frames.{
  Stream, stream_recv_header, stream_recv_buffer, stream_send_buffer, stream_send_empty_buffer,
  en_buffer,
}
use tp_so20231c.Utils.Contexto.{recv_peticion_fs_kernel}
use tp_so20231c.Memoria.Bitarray.{Bitarray}
use tp_so20231c.Memoria.Solicitudes.{pedir_lectura, desempaquetar_bloque}
use tp_so20231c.Filesystem.{Fcb, truncar_archivo}
use tp_so20231c.Filesystem.Bloques.{leer_archivo, escribir_archivo}

-- The files of the directory, each with its values.
abbrev pub Directorio : Type 0
Directorio = List (Text × Fcb)

unfoldable pub fcb_de : Directorio → Text → Option Fcb
unfolding str_eq
fcb_de [] archivo = none
fcb_de (f ∷ fs) archivo =
    let resto = fcb_de fs archivo in if str_eq (f.0) archivo then some (f.1) else resto

-- `readdir` gives the directory itself and the one above it too.
unfoldable pub buscar_archivo : Directorio → Text → Bool
unfolding fcb_de str_eq
buscar_archivo dir archivo =
    if str_eq (codes ".") archivo
    then true
    else if str_eq (codes "..") archivo
    then true
    else elim (fcb_de dir archivo) [ none ↦ false | some _ ↦ true ]

-- The values of a file are saved; a file that is not there is new.
unfoldable pub guardar : Directorio → Text → Fcb → Directorio
unfolding str_eq
guardar [] archivo fcb = (archivo, fcb) ∷ []
guardar (f ∷ fs) archivo fcb =
    let resto = guardar fs archivo fcb in
    if str_eq (f.0) archivo then (archivo, fcb) ∷ fs else f ∷ resto

-- A name of a file in the directory itself: not empty, and with no slash.
unfoldable pub suelto : Text → Bool
suelto [] = false
suelto (c ∷ []) = if c == b'/' then false else true
suelto (c ∷ d ∷ s) = let resto = suelto (d ∷ s) in if c == b'/' then false else resto

-- `abre` is whether `open` can make a file of a name; with none `config_create` gives NULL, which is
-- followed. What it makes elsewhere does not come into the directory.
unfoldable pub crear_fcb : (Text → Bool) → Directorio → Text → Outcome Directorio
unfolding guardar suelto
crear_fcb abre dir nombre =
    if abre nombre
    then ok (
        if suelto nombre
        then guardar dir nombre
            (record { tamanio_archivo = pos 0; puntero_directo = 0; puntero_indirecto = 0 })
        else dir)
    else fault

-- The process that is blocked, off the second connection; and its release there.
unfoldable pub recibir_pid_bloqueado : Unpack ℤ
unfolding stream_recv_header stream_recv_buffer unpack_int
recibir_pid_bloqueado = do
  _ ← stream_recv_header
  buffer ← stream_recv_buffer
  pid ← en_buffer unpack_int buffer
  pure pid

unfoldable pub liberar_pcb : Stream → ℤ → Stream
unfolding stream_send_buffer pack_int buffer_create
liberar_pcb to pid = stream_send_buffer to Header.general (pack_int buffer_create pid)

-- A request with its header.
unfoldable pub recibir_solicitud : Unpack (ℕ × RtaKernelFs)
unfolding stream_recv_header stream_recv_buffer recv_peticion_fs_kernel
recibir_solicitud = do
  solicitud ← stream_recv_header
  buffer ← stream_recv_buffer
  rta_kernel ← en_buffer recv_peticion_fs_kernel buffer
  pure (solicitud, rta_kernel)

module _ (B : Bitarray) where
  -- The files and the three connections: what is still to come in, and what went out.
  pub record Servidor : Type 0 where
    pub directorio : Directorio
    pub archivo_bloques : List ℕ
    pub bitmap : B.Rep
    pub de_kernel : Stream
    pub a_kernel : Stream
    pub de_bloqueados : Stream
    pub a_bloqueados : Stream
    pub de_memoria : Stream
    pub a_memoria : Stream

  unfoldable pub caso_open : Servidor → Text → Servidor
  unfolding buscar_archivo stream_send_empty_buffer
  caso_open s archivo = record s {
    a_kernel = stream_send_empty_buffer s.a_kernel (
        if buscar_archivo s.directorio archivo
        then Header.general
        else Header.nuevo_archivo_filesystem);
  }

  unfoldable pub caso_create_archivo : (Text → Bool) → Servidor → Text → Outcome Servidor
  unfolding crear_fcb stream_send_empty_buffer
  caso_create_archivo abre s archivo = bind (crear_fcb abre s.directorio archivo) (λ dir.
      ok (record s {
        directorio = dir;
        a_kernel = stream_send_empty_buffer s.a_kernel Saludo.hs_aux;
      }))

  module _ (base : ℕ) (block_size : ℤ) where
    -- Without the file its configuration is NULL, which is followed.
    unfoldable pub caso_truncate : Servidor → RtaKernelFs → Outcome Servidor
    unfolding recibir_pid_bloqueado fcb_de truncar_archivo guardar liberar_pcb
    caso_truncate s rta = bind (recibir_pid_bloqueado s.de_bloqueados) (λ p.
        elim (fcb_de s.directorio rta.nombre_archivo) [
          | none ↦ fault
          | some fcb ↦
              bind
                (truncar_archivo B block_size rta.size
                  (record { fcb = fcb; archivo_bloques = s.archivo_bloques; bitmap = s.bitmap }))
                (λ d. ok (record s {
                  directorio = guardar s.directorio rta.nombre_archivo d.fcb;
                  archivo_bloques = d.archivo_bloques;
                  bitmap = d.bitmap;
                  de_bloqueados = p.1;
                  a_bloqueados = liberar_pcb s.a_bloqueados (p.0);
                }))
        ])

    -- What is read does not come to the memory: the pid is packed as an address.
    unfoldable pub caso_read : List ℕ → Servidor → RtaKernelFs → Outcome Servidor
    unfolding recibir_pid_bloqueado fcb_de leer_archivo
    caso_read nuevo s rta = bind (recibir_pid_bloqueado s.de_bloqueados) (λ p.
        elim (fcb_de s.directorio rta.nombre_archivo) [
          | none ↦ fault
          | some fcb ↦
              bind (leer_archivo base block_size nuevo rta fcb s.archivo_bloques) (λ _. fault)
        ])

    -- A header that is not `I_READ` is only logged.
    unfoldable pub caso_write : Servidor → RtaKernelFs → Outcome Servidor
    unfolding recibir_pid_bloqueado fcb_de escribir_archivo pedir_lectura stream_send_buffer
        stream_recv_header stream_recv_buffer desempaquetar_bloque liberar_pcb
    caso_write s rta = bind (recibir_pid_bloqueado s.de_bloqueados) (λ p.
        bind (stream_recv_header s.de_memoria) (λ h. bind (stream_recv_buffer (h.1)) (λ m.
          bind (desempaquetar_bloque (m.0)) (λ datos.
            elim (fcb_de s.directorio rta.nombre_archivo) [
              | none ↦ fault
              | some fcb ↦
                  bind (escribir_archivo base block_size rta fcb (datos.0) s.archivo_bloques)
                    (λ bloques. ok (record s {
                      archivo_bloques = bloques;
                      de_bloqueados = p.1;
                      a_bloqueados = liberar_pcb s.a_bloqueados (p.0);
                      de_memoria = m.1;
                      a_memoria =
                          stream_send_buffer s.a_memoria Flag.i_read
                            (pedir_lectura rta.direccion_fisica rta.size rta.pid);
                    }))
            ]))))

    -- One turn; any other request is read and dropped.
    unfoldable pub atender_kernel : (Text → Bool) → List ℕ → Servidor → Outcome Servidor
    unfolding recibir_solicitud caso_open caso_create_archivo caso_read caso_write caso_truncate
    atender_kernel abre nuevo s = bind (recibir_solicitud s.de_kernel) (λ r.
        let s' = record s { de_kernel = r.1 } in
        let rta = r.0.1 in
        if r.0.0 == Flag.i_open
        then ok (caso_open s' rta.nombre_archivo)
        else if r.0.0 == Flag.i_create_archivo
        then caso_create_archivo abre s' rta.nombre_archivo
        else if r.0.0 == Flag.i_read
        then caso_read nuevo s' rta
        else if r.0.0 == Flag.i_write
        then caso_write s' rta
        else if r.0.0 == Flag.i_truncate
        then caso_truncate s' rta
        else ok s')
