-- ===== src/Tests/Conexion.antt =====
-- A console that connects to the kernel, and a connection that is refused.
use tp_so20231c.Common.{◌≡◌, ◌≢◌, [], ◌∷◌, ◌++◌, some, none, ok, arith, ◌⊎◌, inr}
use tp_so20231c.Common.Int.{pos}
use tp_so20231c.Utils.Saludo
use tp_so20231c.Utils.Header
use tp_so20231c.Utils.Frames.{stream_send_buffer, stream_send_empty_buffer}
use tp_so20231c.Kernel.Sistema.{Sistema, crear_estados}
use tp_so20231c.Kernel.Conexion.{Conexion, atender_consola}
use tp_so20231c.Kernel.Conexion.Rechazo.{conexion_rechazada}
use tp_so20231c.Tests.Memoria.{cero}

abbrev arrancado : Sistema
arrancado = crear_estados 3 []

conexion_rechazada_example :
    (k : Conexion) × (atender_consola 3
        ([], [], [])
        []
        cero
        (pos 10)
        arrancado
        (stream_send_buffer (stream_send_empty_buffer [] Saludo.hs_consola) Header.error (1 ∷ [])
          ++ [])
        []
        []
      ≡ some (ok k))
    × (k.pcb_nuevo ≡ none)
    × (k.sistema ≡ arrancado)
    × (k.a_memoria ≡ [])
    × ((Saludo.hs_consola ≡ Saludo.hs_consola)
          × (k.a_consola ≡ stream_send_empty_buffer [] Saludo.hs_aux)
        ⊎ (Saludo.hs_consola ≢ Saludo.hs_consola) × (k.a_consola ≡ []))
conexion_rechazada_example =
    conexion_rechazada 3 ([], [], []) [] cero (pos 10) arrancado Saludo.hs_consola Header.error
      (1 ∷ []) [] [] [] (omega arith) (omega arith) (omega arith) (inr (ground arith))
