-- ===== src/Tests/Conjunto.antt =====
-- Programs that work together: the kernel with the memory, the console with the CPU.
use tp_so20231c.Common.{
  ℕ, ◌++◌, ◌≡◌, ◌≢◌, refl, List, [], ◌∷◌, some, none, false, ok, fault, arith, ◌⊎◌, codes, bind,
}
use tp_so20231c.Common.Int.{pos}
use tp_so20231c.Utils.Header
use tp_so20231c.Utils.Saludo
use tp_so20231c.Utils.Types.{TablaSegmento, CpuResponse}
use tp_so20231c.Utils.Buffer.{Buffer}
use tp_so20231c.Utils.Buffer.Decodes.{Decodes}
use tp_so20231c.Utils.Segments.{find_segmento_con_id}
use tp_so20231c.Utils.Frames.{stream_send_empty_buffer}
use tp_so20231c.Memoria.Segmentos.{Memoria, quitar, quitar_por_valor}
use tp_so20231c.Memoria.Arranque.{inicializacion_memoria, atender_arranque}
use tp_so20231c.Memoria.Arranque.Limpia.{fila_zero}
use tp_so20231c.Memoria.Pedidos.{peticion_kernel}
use tp_so20231c.Memoria.Pedidos.Errores.{borrar_bytes, pedido_borrar}
use tp_so20231c.Kernel.Arranque.{conectar_memoria}
use tp_so20231c.Kernel.Arranque.Juntos.{arranque_lem}
use tp_so20231c.Consola.Envio.{archivo}
use tp_so20231c.Tests.Memoria.{bits, cero, inicial, inicial-Valida}
use tp_so20231c.Tests.Consola.{de_a_32}

arranque_example :
    (m : Memoria bits) × (bytes : List ℕ) × (atender_arranque bits 16 1 ok
        (inicializacion_memoria bits (λ j. false))
        (pos 4)
        (pos 8)
        (stream_send_empty_buffer [] Saludo.hs_kernel ++ [])
        []
      ≡ ok (m, [], [] ++ bytes))
    × (m.tabla ≡ fila_zero 4 ∷ [])
    × Decodes (conectar_memoria de_a_32) bytes (fila_zero 4, pos 8)
arranque_example =
    arranque_lem bits 16 1 4 ok de_a_32 (λ j. false) (pos 8) [] [] (λ j l u. refl) (omega arith)
      (omega arith) (omega arith) (omega arith) (omega arith)

pedido_borrar_example :
    let turno = peticion_kernel bits 16 1 ok inicial (borrar_bytes (pos 5) ++ []) [] in
    (pos 5 ≡ pos 0) × (turno ≡ ok (inicial, [], []))
    ⊎ (pos 5 ≢ pos 0) × (find_segmento_con_id (cero ∷ []) (pos 5) ≡ none) × (turno ≡ fault)
    ⊎ (pos 5 ≢ pos 0)
      × ((t : TablaSegmento) × (m' : Memoria bits) × (find_segmento_con_id (cero ∷ []) (pos 5)
            ≡ some t)
          × (m'.tabla ≡ quitar (cero ∷ []) (pos 5))
          × ((quitar (cero ∷ []) (pos 5) ≢ [])
                × (turno
                    ≡ bind
                        (quitar_por_valor ok m'.tabla (pos 5))
                        (λ tabla. ok (record m' { tabla = tabla }, [], [])))
              ⊎ (quitar (cero ∷ []) (pos 5) ≡ []) × (turno ≡ ok (m', [], []))))
pedido_borrar_example =
    pedido_borrar bits 16 1 ok inicial (pos 5) [] [] (omega arith) inicial-Valida (omega arith)

abbrev bloque : CpuResponse
bloque = record {
  pid = pos 0;
  flag = 7;
  registros = [];
  pc = 0;
  archivo = [];
  tiempo = pos 0;
  recurso = codes "X";
  size_segmento = pos 0;
  id_segmento = pos 0;
  lista_instrucciones = [];
  tabla_segmentos = [];
  posicion_puntero = pos 0;
  direccion_fisica = pos 0;
}

abbrev dir : List ℕ
dir = 1 ∷ 2 ∷ 3 ∷ 4 ∷ 5 ∷ 6 ∷ 7 ∷ 8 ∷ []
