-- ===== src/Utils/Contexto.antt =====
-- The context of a process on the wire: `enviar_instruccion_kernel` (cpu/src/cpu.c) packs what
-- `desempaquetar_cpu_response` (utils.c) unpacks; and the kernel's request to the filesystem, by
-- `enviar_archivo_fs` (kernel/src/planificador.c) and `recv_peticion_fs_kernel`
-- (filesystem/src/filesystem.c).
pub mod RoundTrip
use tp_so20231c.Common.{
  ℕ, zero, suc, List, [], ◌∷◌, ◌++◌, Outcome, ok, exit, fault, bind, length, drop,
}
use tp_so20231c.Common.Int.{ℤ, pos, negsuc, pos_part}
use tp_so20231c.Utils.Types.{CpuResponse, Instruccion, TablaSegmento, RtaKernelFs}
use tp_so20231c.Utils.Buffer.{
  Buffer, Unpack, ◌>>=◌, pure, buffer_create, buffer_pack, buffer_unpack, pack_u32, pack_int,
  unpack_u32, unpack_int, buffer_pack_string, buffer_unpack_string,
}
use tp_so20231c.Utils.Segments.{empaquetar_lista_segmentos, desempaquetar_lista_segmentos}
use tp_so20231c.Utils.Instructions.{
  Parametros, empaquetar_lista_instrucciones, desempaquetar_lista_instrucciones,
}

-- The part in front of the instructions, and the part behind the segments. `puntero` is the eight
-- bytes of the pointer `registros`: they are packed in place of what it points to.
unfoldable pub empaquetar_cabeza : List ℕ → CpuResponse → Buffer
unfolding buffer_create buffer_pack pack_u32 pack_int
empaquetar_cabeza puntero c =
    pack_int (buffer_pack (pack_u32 (pack_int buffer_create c.pid) c.pc) puntero)
      (pos (length c.lista_instrucciones))

unfoldable pub empaquetar_cola : Buffer → CpuResponse → Buffer
unfolding buffer_pack_string pack_u32 pack_int
empaquetar_cola buffer c =
    let b1 = pack_int (pack_u32 (buffer_pack_string buffer c.archivo) c.flag) c.tiempo in
    let b2 = pack_int (pack_int (buffer_pack_string b1 c.recurso) c.size_segmento) c.id_segmento in
    pack_int (pack_int b2 c.posicion_puntero) c.direccion_fisica

unfoldable pub enviar_instruccion_kernel : List ℕ → CpuResponse → Outcome Buffer
unfolding empaquetar_cabeza empaquetar_cola pack_int empaquetar_lista_instrucciones
    empaquetar_lista_segmentos
enviar_instruccion_kernel puntero c =
    bind
      (empaquetar_lista_instrucciones (empaquetar_cabeza puntero c) (length c.lista_instrucciones)
        c.lista_instrucciones)
      (λ b.
        bind
          (empaquetar_lista_segmentos (pack_int b (pos (length c.tabla_segmentos)))
            (length c.tabla_segmentos) c.tabla_segmentos)
          (λ b'. ok (empaquetar_cola b' c)))

-- `nuevos` is the block that `malloc(sizeof(registros_cpu))` returns: its first eight bytes are
-- overwritten. A negative count runs no loop.
unfoldable pub desempaquetar_cpu_response : (ℕ → ℕ) → List ℕ → Parametros → Unpack CpuResponse
unfolding unpack_u32 unpack_int buffer_unpack buffer_unpack_string desempaquetar_lista_instrucciones
    desempaquetar_lista_segmentos
desempaquetar_cpu_response usable nuevos ps = do
  pid ← unpack_int
  pc ← unpack_u32
  bytes ← buffer_unpack 8
  tam_lista_instruc ← unpack_int
  lista ← desempaquetar_lista_instrucciones (pos_part tam_lista_instruc) ps
  tam_lista_segmentos ← unpack_int
  tabla ← desempaquetar_lista_segmentos usable (pos_part tam_lista_segmentos)
  archivo ← buffer_unpack_string
  flag ← unpack_u32
  tiempo ← unpack_int
  recurso ← buffer_unpack_string
  size_segmento ← unpack_int
  id_segmento ← unpack_int
  posicion_puntero ← unpack_int
  direccion_fisica ← unpack_int
  pure (record {
    pid = pid;
    flag = flag;
    registros = bytes ++ drop 8 nuevos;
    pc = pc;
    archivo = archivo;
    tiempo = tiempo;
    recurso = recurso;
    size_segmento = size_segmento;
    id_segmento = id_segmento;
    lista_instrucciones = lista;
    tabla_segmentos = tabla;
    posicion_puntero = posicion_puntero;
    direccion_fisica = direccion_fisica;
  })

unfoldable pub enviar_archivo_fs : RtaKernelFs → Buffer
unfolding buffer_create pack_int pack_u32 buffer_pack_string
enviar_archivo_fs dato =
    let b = pack_int (pack_int buffer_create dato.direccion_fisica) dato.pid in
    buffer_pack_string (pack_int (pack_u32 b dato.puntero) dato.size) dato.nombre_archivo

unfoldable pub recv_peticion_fs_kernel : Unpack RtaKernelFs
unfolding unpack_u32 unpack_int buffer_unpack_string
recv_peticion_fs_kernel = do
  direccion_fisica ← unpack_int
  pid ← unpack_int
  puntero ← unpack_u32
  size ← unpack_int
  nombre_archivo ← buffer_unpack_string
  pure (record {
    size = size;
    direccion_fisica = direccion_fisica;
    nombre_archivo = nombre_archivo;
    pid = pid;
    puntero = puntero;
  })
