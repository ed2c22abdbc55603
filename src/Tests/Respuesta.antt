-- ===== src/Tests/Respuesta.antt =====
-- The kernel at what the CPU says of a YIELD.
use tp_so20231c.Common.{◌≡◌, refl, [], ◌∷◌, none, some, true, ok, exit, codes}
use tp_so20231c.Common.Int.{pos}
use tp_so20231c.Utils.Tipo
use tp_so20231c.Utils.Flag
use tp_so20231c.Utils.Types.{CpuResponse, Instruccion}
use tp_so20231c.Cpu.Decode.{contexto, hay_que_mandar_contexto, decode}
use tp_so20231c.Kernel.Sistema.{Sistema, crear_estados}
use tp_so20231c.Kernel.Respuesta.{atender_respuesta}
use tp_so20231c.Kernel.Respuesta.Destino.{Atendida, respuesta_lem}

abbrev antes : CpuResponse
antes = record {
  pid = pos 1;
  flag = 0;
  registros = [];
  pc = 4;
  archivo = [];
  tiempo = pos 0;
  recurso = [];
  size_segmento = pos 0;
  id_segmento = pos 0;
  lista_instrucciones = [];
  tabla_segmentos = [];
  posicion_puntero = pos 0;
  direccion_fisica = pos 0;
}

abbrev despues : CpuResponse
despues = record antes { flag = Flag.i_yield; pc = 5 }

abbrev ceder : Instruccion
ceder = record { nombre = Tipo.yield; parametro1 = none; parametro2 = none; parametro3 = none }

cedido : decode (λ _ _ _. exit) (codes "64") antes ceder ≡ ok (despues, contexto despues ∷ [])
unfolding decode
cedido = refl

ceder-manda : hay_que_mandar_contexto ceder ≡ true
unfolding hay_que_mandar_contexto
ceder-manda = refl

abbrev ejecutando : Sistema
ejecutando = record (crear_estados 3 []) { corriendo = some 1; execute_libre = 0 }

respuesta_example :
    Atendida
      (codes "FIFO")
      (λ _. 0)
      (pos 0)
      []
      ejecutando
      1
      Tipo.yield
      (atender_respuesta (pos 0) [] ejecutando 1 despues)
respuesta_example =
    respuesta_lem (codes "FIFO") (λ _. 0) (pos 0) [] ejecutando 1 (λ _ _ _. exit) (codes "64") antes
      despues ceder (contexto despues ∷ []) cedido ceder-manda refl
