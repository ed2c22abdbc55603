-- ===== src/Kernel/Archivos/Turnos.antt =====
-- The kernel and the filesystem: how a file is opened, and how a file is truncated while its process
-- is blocked.
pub mod Nombres
use tp_so20231c.Common.{
  ℕ, ◌+◌, ◌<◌, ◌^◌, ◌≡◌, ◌≢◌, refl, ap, sym, ◌∙◌, List, [], ◌∷◌, ◌++◌, append-nil, Bool, true,
  false, Bool-cases, Option-cases, Option, none, some, Outcome, ok, bind, length, length-append,
  arith, if◌then◌else◌, ◌⊎◌, inl, inr, Text, codes, str_eq, str_eq_iff,
}
use tp_so20231c.Common.Int.{ℤ, pos}
use tp_so20231c.Utils.Flag
use tp_so20231c.Utils.Header
use tp_so20231c.Utils.Saludo
use tp_so20231c.Utils.Types.{RtaKernelFs}
use tp_so20231c.Utils.Buffer.{unpack_int, buffer_create}
use tp_so20231c.Utils.Buffer.Decodes.{Decodes}
use tp_so20231c.Utils.Buffer.Laws.{
  IsInt, int_bytes, int_bytes-Decodes, pack_int-append, length-int_bytes, packing, length-u32_bytes,
  length-text_bytes,
}
use tp_so20231c.Utils.Frames.{Stream, stream_send_empty_buffer, recibir_saludo}
use tp_so20231c.Utils.Frames.Marcos.{
  marco, marco_lem, marco_ultimo-Decodes, saludo_marco, marco_saludo-Decodes,
}
use tp_so20231c.Utils.Contexto.{enviar_archivo_fs, recv_peticion_fs_kernel}
use tp_so20231c.Utils.Contexto.RoundTrip.{IsPeticion, recv_peticion-enviar_archivo}
use tp_so20231c.Memoria.Bitarray.{Bitarray}
use tp_so20231c.Filesystem.{Fcb, Disco, truncar_archivo}
use tp_so20231c.Filesystem.Servidor.{
  suelto, Directorio, fcb_de, buscar_archivo, guardar, crear_fcb, recibir_solicitud,
  recibir_pid_bloqueado, liberar_pcb, Servidor, caso_open, caso_truncate, caso_create_archivo,
  atender_kernel,
}
use tp_so20231c.Kernel.Archivos.{
  enviar_peticion, stream_pcb_fs, recibir_desbloqueado, consultar, creacion_archivo_file_system,
  abrir,
}
use tp_so20231c.Kernel.Archivos.Turnos.Nombres.{guardado, nuevo_al_final}

-- A request on the kernel's connection.
pedido : ℕ → RtaKernelFs → List ℕ
pedido h d = marco h (enviar_archivo_fs d)

solicitud-Decodes :
    (h : ℕ) (d : RtaKernelFs)
    → IsPeticion d
    → length (enviar_archivo_fs d) < 2 ^ 32
    → Decodes recibir_solicitud (pedido h d) (h, d)
unfolding recibir_solicitud pedido
solicitud-Decodes h d p l =
    marco_ultimo-Decodes h (enviar_archivo_fs d) recv_peticion_fs_kernel (λ x y. (x, y)) l
      (recv_peticion-enviar_archivo d p) refl

pid-Decodes :
    (h : ℕ) (pid : ℤ) → IsInt pid → Decodes recibir_pid_bloqueado (marco h (int_bytes pid)) pid
unfolding recibir_pid_bloqueado
pid-Decodes h pid i =
    marco_ultimo-Decodes h (int_bytes pid) unpack_int (λ _ x. x)
      (omega (arith, length-int_bytes pid)) (int_bytes-Decodes pid i) refl

liberar_pcb-marco :
    (to : Stream) (pid : ℤ) → liberar_pcb to pid ≡ to ++ marco Header.general (int_bytes pid)
unfolding liberar_pcb buffer_create
liberar_pcb-marco to pid =
    rw (pack_int-append [] pid) (marco_lem Header.general (int_bytes pid) to (omega arith))

stream_pcb_fs-marco : (pid : ℤ) → stream_pcb_fs [] pid ≡ marco Saludo.hs_aux (int_bytes pid)
unfolding stream_pcb_fs buffer_create
stream_pcb_fs-marco pid =
    rw (pack_int-append [] pid) (marco_lem Saludo.hs_aux (int_bytes pid) [] (omega arith))

length-enviar_archivo_fs :
    (d : RtaKernelFs) → length (enviar_archivo_fs d) ≡ length d.nombre_archivo + 21
unfolding enviar_archivo_fs buffer_create
length-enviar_archivo_fs d =
    simp (packing, length-append, length-int_bytes, length-u32_bytes, length-text_bytes)
      (omega arith)

enviar_peticion-marco :
    (to : Stream) (h : ℕ) (d : RtaKernelFs) → h < 256 → enviar_peticion to h d ≡ to ++ pedido h d
unfolding enviar_peticion pedido
enviar_peticion-marco to h d p = marco_lem h (enviar_archivo_fs d) to p

abbrev pub vacio : Fcb
vacio = record { tamanio_archivo = pos 0; puntero_directo = 0; puntero_indirecto = 0 }

module _ (B : Bitarray) (base : ℕ) (block_size : ℤ) (abre : Text → Bool) (nuevo : List ℕ) where
  -- Nothing is under way on the connection to the kernel.
  abbrev pub quieto : Servidor B → Servidor B
  quieto s = record s { de_kernel = []; a_kernel = [] }

  -- The kernel takes the answer.
  abbrev toma : Servidor B → ℕ × Stream → Outcome (ℕ × Servidor B)
  toma s h = ok (h.0, record s { a_kernel = h.1 })

  contestada :
      (s : Servidor B) (h : ℕ)
      → h < 256
      → bind (recibir_saludo (stream_send_empty_buffer [] h)) (toma s)
        ≡ ok (h, record s { a_kernel = [] })
  contestada s h p =
      rw (saludo_marco [] h p)
        (rw (rw append-nil at ((marco_saludo-Decodes h p).reads []), bind) refl)

  respuesta_open : Servidor B → Text → ℕ
  respuesta_open s archivo =
      if buscar_archivo s.directorio archivo
      then Header.general
      else Header.nuevo_archivo_filesystem

  consulta_open :
      (d : RtaKernelFs) (s : Servidor B)
      → IsPeticion d
      → length (enviar_archivo_fs d) < 2 ^ 32
      → consultar B base block_size abre nuevo Flag.i_open d (quieto s)
        ≡ ok (respuesta_open s d.nombre_archivo, quieto s)
  unfolding consultar atender_kernel caso_open respuesta_open
  consulta_open d s p l = rw (enviar_peticion-marco [] Flag.i_open d (omega arith)) (
      rw (rw append-nil at ((solicitud-Decodes Flag.i_open d p l).reads []), bind)
        (contestada (quieto s) (respuesta_open s d.nombre_archivo) (ground arith)))

  creado :
      (dir : Directorio) (n : Text)
      → abre n ≡ true
      → suelto n ≡ true
      → crear_fcb abre dir n ≡ ok (guardar dir n vacio)
  unfolding crear_fcb
  creado dir n a u = rw (a, u) refl

  consulta_create :
      (d : RtaKernelFs) (s : Servidor B)
      → IsPeticion d
      → length (enviar_archivo_fs d) < 2 ^ 32
      → abre d.nombre_archivo ≡ true
      → suelto d.nombre_archivo ≡ true
      → consultar B base block_size abre nuevo Flag.i_create_archivo d (quieto s)
        ≡ ok (
          Saludo.hs_aux,
          record (quieto s) { directorio = guardar s.directorio d.nombre_archivo vacio },
        )
  unfolding consultar atender_kernel caso_create_archivo
  consulta_create d s p l a u =
      rw (enviar_peticion-marco [] Flag.i_create_archivo d (omega arith)) (
        rw (rw append-nil at ((solicitud-Decodes Flag.i_create_archivo d p l).reads []), bind)
          (rw (creado s.directorio d.nombre_archivo a u, bind)
            (contestada
              (record (quieto s) { directorio = guardar s.directorio d.nombre_archivo vacio })
              Saludo.hs_aux (omega arith))))

  buscado :
      (dir : Directorio) (n : Text) (f : Fcb) → fcb_de dir n ≡ some f → buscar_archivo dir n ≡ true
  unfolding buscar_archivo
  buscado dir n f h = elim (Bool-cases (str_eq (codes ".") n)) [
    | inl e ↦ rw e refl
    | inr e ↦ elim (Bool-cases (str_eq (codes "..") n)) [
      | inl k ↦ rw (e, k) refl
      | inr k ↦ rw (e, k, h) refl
    ]
  ]

  no_buscado : (dir : Directorio) (n : Text) → buscar_archivo dir n ≡ false → fcb_de dir n ≡ none
  unfolding buscar_archivo
  no_buscado dir n h = elim (Option-cases (fcb_de dir n)) [
    | inl e ↦ e
    | inr e ↦ absurd (otro_fin (buscar_archivo dir n) h (buscado dir n (e.0) (e.1)))
  ]
    where
      otro_fin : (b : Bool) → b ≡ false → b ≡ true → ⊥
      otro_fin b h k = ground arith

  -- The kernel opens a file, with nothing under way on the connection and the fields of the request
  -- in their ranges, by a name that is not empty and has no slash, of which the system can make a
  -- file. A file that is there is left as it is. Any other is put behind those of the
  -- directory, empty. Afterwards the file is found, and the connection is as it was.
  pub abrir_lem :
      (d : RtaKernelFs) (s : Servidor B)
      → IsPeticion d
      → length d.nombre_archivo + 21 < 2 ^ 31
      → abre d.nombre_archivo ≡ true
      → suelto d.nombre_archivo ≡ true
      → (s' : Servidor B) × (abrir B base block_size abre nuevo d (quieto s) ≡ ok s')
        × (buscar_archivo s'.directorio d.nombre_archivo ≡ true)
        × ((buscar_archivo s.directorio d.nombre_archivo ≡ true) × (s' ≡ quieto s)
            ⊎ (buscar_archivo s.directorio d.nombre_archivo ≡ false)
              × (s' ≡ record (quieto s) {
                directorio = s.directorio ++ (d.nombre_archivo, vacio) ∷ [];
              }))
  unfolding abrir creacion_archivo_file_system respuesta_open
  abrir_lem d s p l a u =
      let k : length (enviar_archivo_fs d) < 2 ^ 32 = omega (arith, length-enviar_archivo_fs d) in
      elim (Bool-cases (buscar_archivo s.directorio d.nombre_archivo)) [
        | inl e ↦ (quieto s, rw (consulta_open d s p k, bind) (rw e refl), e, inl (e, refl))
        | inr e ↦
            let n = no_buscado s.directorio d.nombre_archivo e in
            let f = guardado s.directorio d.nombre_archivo vacio in
            (
              record (quieto s) { directorio = guardar s.directorio d.nombre_archivo vacio },
              rw (consulta_open d s p k, bind)
                  (rw (e) (rw (consulta_create d s p k a u, bind) refl)),
              buscado _ d.nombre_archivo vacio (f.0),
              inr (
                e,
                ap (λ x. record (quieto s) { directorio = x })
                    (nuevo_al_final s.directorio d.nombre_archivo vacio n),
              ),
            )
      ]

  -- The kernel asks for the truncation of a file and says which process is blocked for it. If the
  -- truncation succeeds on the file's control block, the turn of the filesystem takes both frames
  -- off, saves the new control block under the name and no other, keeps the new blocks and bitmap,
  -- and sends back what the kernel reads as the pid of that process.
  pub truncar_turno :
      (d : RtaKernelFs) (s : Servidor B) (pid : ℤ) (rest rest' : Stream) (f : Fcb) (t : Disco B)
      → IsPeticion d
      → length d.nombre_archivo + 21 < 2 ^ 32
      → IsInt pid
      → fcb_de s.directorio d.nombre_archivo ≡ some f
      → truncar_archivo B block_size d.size
          (record { fcb = f; archivo_bloques = s.archivo_bloques; bitmap = s.bitmap })
        ≡ ok t
      → (s' : Servidor B) × (bytes : List ℕ) × (atender_kernel B base block_size abre nuevo
            (record s {
              de_kernel = enviar_peticion [] Flag.i_truncate d ++ rest;
              de_bloqueados = stream_pcb_fs [] pid ++ rest';
            })
          ≡ ok s')
        × (fcb_de s'.directorio d.nombre_archivo ≡ some t.fcb)
        × ((m : Text) → m ≢ d.nombre_archivo → fcb_de s'.directorio m ≡ fcb_de s.directorio m)
        × (s'.archivo_bloques ≡ t.archivo_bloques)
        × (s'.bitmap ≡ t.bitmap)
        × (s'.de_kernel ≡ rest)
        × (s'.de_bloqueados ≡ rest')
        × (s'.a_bloqueados ≡ s.a_bloqueados ++ bytes)
        × Decodes recibir_desbloqueado bytes pid
  unfolding atender_kernel caso_truncate recibir_desbloqueado recibir_pid_bloqueado
  truncar_turno d s pid rest rest' f t p l i h e =
      let k : length (enviar_archivo_fs d) < 2 ^ 32 = omega (arith, length-enviar_archivo_fs d) in
      let g = guardado s.directorio d.nombre_archivo t.fcb in
      (
        record s {
          directorio = guardar s.directorio d.nombre_archivo t.fcb;
          archivo_bloques = t.archivo_bloques;
          bitmap = t.bitmap;
          de_kernel = rest;
          de_bloqueados = rest';
          a_bloqueados = liberar_pcb s.a_bloqueados pid;
        },
        marco Header.general (int_bytes pid),
        rw (enviar_peticion-marco [] Flag.i_truncate d (omega arith)) (
            rw ((solicitud-Decodes Flag.i_truncate d p k).reads rest, bind)
              (rw (stream_pcb_fs-marco pid)
                (rw ((pid-Decodes Saludo.hs_aux pid i).reads rest', bind) (rw (h, e, bind) refl)))),
        g.0,
        g.1,
        refl,
        refl,
        refl,
        refl,
        liberar_pcb-marco s.a_bloqueados pid,
        pid-Decodes Header.general pid i,
      )
