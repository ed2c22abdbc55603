-- ===== src/Utils/Contexto/RoundTrip.antt =====
-- What the other side receives of a context and of a request to the filesystem.
use tp_so20231c.Common.{
  ℕ, ◌^◌, ◌<◌, ◌≡◌, refl, ap, List, ◌++◌, arith, ok, bind, IsText, length, drop, map, ◌≤◌,
}
use tp_so20231c.Common.Int.{pos}
use tp_so20231c.Utils.Types.{CpuResponse, Instruccion, RtaKernelFs}
use tp_so20231c.Utils.Buffer.{Buffer, buffer_create, u32_bytes}
use tp_so20231c.Utils.Buffer.Decodes.{Decodes, bind-Decodes, bind_pure-Decodes}
use tp_so20231c.Utils.Buffer.Laws.{
  IsInt, buffer_unpack-Decodes, unpack_u32-Decodes, int_bytes, int_bytes-Decodes, text_bytes,
  text_bytes-Decodes, packing,
}
use tp_so20231c.Utils.Segments.RoundTrip.{
  AreRows, table_bytes, empaquetar_lista_segmentos-append, desempaquetar_lista_segmentos-Decodes,
}
use tp_so20231c.Utils.Instructions.{Parametros}
use tp_so20231c.Utils.Instructions.RoundTrip.{AreComplete, Travels, Travels_lem, visible}
use tp_so20231c.Utils.Contexto.{
  empaquetar_cabeza, empaquetar_cola, enviar_instruccion_kernel, desempaquetar_cpu_response,
  enviar_archivo_fs, recv_peticion_fs_kernel,
}

-- A request that fits: `int`s and an `uint32_t` in their ranges, a text for a name.
pub record IsPeticion (d : RtaKernelFs) : Type 0 where
  pub size : IsInt d.size
  pub direccion_fisica : IsInt d.direccion_fisica
  pub nombre_archivo : IsText d.nombre_archivo
  pub pid : IsInt d.pid
  pub puntero : d.puntero < 2 ^ 32

peticion_bytes : RtaKernelFs → List ℕ
peticion_bytes d =
    int_bytes d.direccion_fisica
    ++ (int_bytes d.pid
        ++ (u32_bytes d.puntero ++ (int_bytes d.size ++ text_bytes d.nombre_archivo)))

enviar_archivo_fs-bytes : (d : RtaKernelFs) → enviar_archivo_fs d ≡ peticion_bytes d
unfolding enviar_archivo_fs peticion_bytes buffer_create
enviar_archivo_fs-bytes d = simp packing

-- The filesystem receives the request that the kernel sent.
pub recv_peticion-enviar_archivo :
    (d : RtaKernelFs) → IsPeticion d → Decodes recv_peticion_fs_kernel (enviar_archivo_fs d) d
unfolding recv_peticion_fs_kernel peticion_bytes
recv_peticion-enviar_archivo d h = rw (enviar_archivo_fs-bytes d) (
    bind-Decodes _ (int_bytes-Decodes d.direccion_fisica h.direccion_fisica) (
      bind-Decodes _ (int_bytes-Decodes d.pid h.pid) (
        bind-Decodes _ (unpack_u32-Decodes d.puntero h.puntero) (
          bind-Decodes _ (int_bytes-Decodes d.size h.size)
            (bind_pure-Decodes _ (text_bytes-Decodes d.nombre_archivo h.nombre_archivo) refl)))))

-- A context that fits.
pub record IsContexto (c : CpuResponse) : Type 0 where
  pub pid : IsInt c.pid
  pub pc : c.pc < 2 ^ 32
  pub instrucciones : AreComplete c.lista_instrucciones
  pub cuantas : length c.lista_instrucciones < 2 ^ 31
  pub segmentos : AreRows c.tabla_segmentos
  pub cuantos : length c.tabla_segmentos < 2 ^ 31
  pub archivo : IsText c.archivo
  pub flag : c.flag < 2 ^ 32
  pub tiempo : IsInt c.tiempo
  pub recurso : IsText c.recurso
  pub size_segmento : IsInt c.size_segmento
  pub id_segmento : IsInt c.id_segmento
  pub posicion_puntero : IsInt c.posicion_puntero
  pub direccion_fisica : IsInt c.direccion_fisica

-- The bytes of the two ends of a packed context.
cabeza_bytes : List ℕ → CpuResponse → List ℕ → List ℕ
cabeza_bytes puntero c resto =
    int_bytes c.pid
    ++ (u32_bytes c.pc ++ (puntero ++ (int_bytes (pos (length c.lista_instrucciones)) ++ resto)))

cola_bytes : CpuResponse → List ℕ
cola_bytes c =
    text_bytes c.archivo
    ++ (u32_bytes c.flag
        ++ (int_bytes c.tiempo
            ++ (text_bytes c.recurso
                ++ (int_bytes c.size_segmento
                    ++ (int_bytes c.id_segmento
                        ++ (int_bytes c.posicion_puntero ++ int_bytes c.direccion_fisica))))))

empaquetar_cola-append : (b : Buffer) (c : CpuResponse) → empaquetar_cola b c ≡ b ++ cola_bytes c
unfolding empaquetar_cola cola_bytes
empaquetar_cola-append b c = simp packing

medio_bytes : CpuResponse → List ℕ → List ℕ
medio_bytes c instrucciones =
    instrucciones
    ++ (int_bytes (pos (length c.tabla_segmentos))
        ++ (table_bytes c.tabla_segmentos ++ cola_bytes c))

contexto-bytes :
    (puntero : List ℕ) (c : CpuResponse) (ps : Parametros)
    → (t : Travels c.lista_instrucciones ps)
    → enviar_instruccion_kernel puntero c ≡ ok (cabeza_bytes puntero c (medio_bytes c t.bytes))
unfolding enviar_instruccion_kernel empaquetar_cabeza cabeza_bytes medio_bytes buffer_create
contexto-bytes puntero c ps t =
    rw (t.packs (empaquetar_cabeza puntero c), bind)
      (rw (empaquetar_lista_segmentos-append _ c.tabla_segmentos, bind)
        (ap ok (rw (empaquetar_cola-append _ c) (simp packing))))

-- What the receiver has of a context: all of it but the registers, where it has the sender's
-- pointer, and the parameters that no instruction reads.
abbrev pub recibido : List ℕ → List ℕ → List Instruccion → CpuResponse → CpuResponse
recibido puntero nuevos llegan c = record c {
  registros = puntero ++ drop 8 nuevos;
  lista_instrucciones = llegan;
}

contexto-Decodes :
    (usable : ℕ → ℕ) (puntero nuevos : List ℕ) (c : CpuResponse) (ps : Parametros)
    → 20 ≤ usable 12
    → IsContexto c
    → length puntero ≡ 8
    → (t : Travels c.lista_instrucciones ps)
    → Decodes
        (desempaquetar_cpu_response usable nuevos ps)
        (cabeza_bytes puntero c (medio_bytes c t.bytes))
        (recibido puntero nuevos t.llegan c)
unfolding desempaquetar_cpu_response cabeza_bytes medio_bytes cola_bytes
contexto-Decodes usable puntero nuevos c ps u h e t =
    bind-Decodes _ (int_bytes-Decodes c.pid h.pid) (
      bind-Decodes _ (unpack_u32-Decodes c.pc h.pc) (
        bind-Decodes _ (buffer_unpack-Decodes 8 puntero e (omega arith)) (
          bind-Decodes _ (int_bytes-Decodes _ h.cuantas) (
            bind-Decodes _ t.reads (
              bind-Decodes _ (int_bytes-Decodes _ h.cuantos) (
                bind-Decodes _
                  (desempaquetar_lista_segmentos-Decodes usable c.tabla_segmentos u h.segmentos)
                  (bind-Decodes _ (text_bytes-Decodes c.archivo h.archivo) (
                    bind-Decodes _ (unpack_u32-Decodes c.flag h.flag) (
                      bind-Decodes _ (int_bytes-Decodes c.tiempo h.tiempo) (
                        bind-Decodes _ (text_bytes-Decodes c.recurso h.recurso) (
                          bind-Decodes _ (int_bytes-Decodes c.size_segmento h.size_segmento) (
                            bind-Decodes _ (int_bytes-Decodes c.id_segmento h.id_segmento) (
                              bind-Decodes _
                                (int_bytes-Decodes c.posicion_puntero h.posicion_puntero)
                                (bind_pure-Decodes _
                                  (int_bytes-Decodes c.direccion_fisica h.direccion_fisica)
                                  refl))))))))))))))

-- The CPU's answer arrives at the kernel with every field as sent, the segment table and the
-- instructions (names and their parameters) included. Of the registers, the first eight bytes
-- are the sender's pointer and the rest is what the receiver's `malloc` held. The block that the
-- receiver allocates for a row, `malloc(12)`, has room for the row's 20 bytes.
pub contexto_llega :
    (usable : ℕ → ℕ) (puntero nuevos : List ℕ) (c : CpuResponse) (ps : Parametros)
    → 20 ≤ usable 12
    → IsContexto c
    → length puntero ≡ 8
    → (bytes : Buffer) × (llegan : List Instruccion) × (enviar_instruccion_kernel puntero c
        ≡ ok bytes)
      × Decodes
          (desempaquetar_cpu_response usable nuevos ps)
          bytes
          (recibido puntero nuevos llegan c)
      × (map visible llegan ≡ map visible c.lista_instrucciones)
contexto_llega usable puntero nuevos c ps u h e =
    let t : Travels c.lista_instrucciones ps =
      Travels_lem c.lista_instrucciones ps h.instrucciones in
    (
      _,
      t.llegan,
      contexto-bytes puntero c ps t,
      contexto-Decodes usable puntero nuevos c ps u h e t,
      t.same,
    )
