-- ===== src/Cpu/Rafaga.antt =====
-- cpu.c, `realizar_instrucciones`: one turn of its outer loop, from a received context to the
-- instruction that gives the processor up. The contexts that the kernel sends back meanwhile are an
-- argument; the headers in front of them are only logged.
pub mod Fin
pub mod Turnos
use tp_so20231c.Common.{
  ℕ, zero, suc, List, [], ◌∷◌, ◌++◌, Option, none, some, Bool, Outcome, ok, bind, Text, get_elem?,
  if◌then◌else◌,
}
use tp_so20231c.Common.Int.{ℤ}
use tp_so20231c.Utils.Types.{CpuResponse, Instruccion}
use tp_so20231c.Cpu.Decode.{
  Mensaje, no_manda_contexto, instruccion_no_desaloja, desreferenciar, decode,
}

pub data Final : Type 0 where
  -- the fuel is used up
  sin_fin : Final
  -- the CPU waits for a context, having sent these messages
  espera : List Mensaje → Final
  -- the last instruction is carried out: the context, the messages, the contexts not yet received
  fin : CpuResponse → List Mensaje → List CpuResponse → Final

-- `list_get` at the program counter; past the end it is NULL, which is followed at once.
unfoldable pub proxima : CpuResponse → Outcome Instruccion
proxima info = desreferenciar (get_elem? info.lista_instrucciones info.pc)

module _ (memoria : ℤ → ℤ → ℤ → Outcome Text) (tam : Text) where
  -- The inner `while`, at the instruction `prox`, with the messages sent so far.
  unfoldable pub correr :
      ℕ → List CpuResponse → CpuResponse → Instruccion → List Mensaje → Outcome Final
  unfolding proxima no_manda_contexto instruccion_no_desaloja decode
  correr zero kernel info prox ms = ok sin_fin
  correr (suc n) kernel info prox ms =
      if instruccion_no_desaloja prox
      then if no_manda_contexto prox
        then bind (proxima info) (λ i.
          bind (decode memoria tam info i)
            (λ r. bind (proxima (r.0)) (λ i'. correr n kernel (r.0) i' (ms ++ r.1))))
        else bind (proxima info) (λ i. bind (decode memoria tam info i) (λ r. elim kernel [
          | [] ↦ ok (espera (ms ++ r.1))
          | k ∷ ks ↦ bind (proxima k) (λ i'. correr n ks k i' (ms ++ r.1))
        ]))
      else bind (decode memoria tam info prox) (λ r. ok (fin (r.0) (ms ++ r.1) kernel))

  unfoldable pub rafaga : ℕ → List CpuResponse → CpuResponse → Outcome Final
  unfolding correr
  rafaga n kernel info = bind (proxima info) (λ i. correr n kernel info i [])
