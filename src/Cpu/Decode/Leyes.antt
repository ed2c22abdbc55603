-- ===== src/Cpu/Decode/Leyes.antt =====
-- What each case of `decode` leaves alone, what it sends, and which flag it sets.
pub mod Efectos
use tp_so20231c.Common.{
  ℕ, ◌≡◌, refl, ◌⊎◌, inl, inr, List, [], ◌∷◌, Option, Bool, true, not, ◌||◌, Outcome, ok, Text,
  ◌==◌, ==_iff, if◌then◌else◌, Cumple, ok-Cumple, bind-Cumple, if-Cumple, exit-Cumple,
}
use tp_so20231c.Common.Int.{ℤ, pos, ◌+ℤ◌, ◌≤ℤ◌, ltb_ℤ, no_menor}
use tp_so20231c.Utils.Tipo
use tp_so20231c.Utils.Flag
use tp_so20231c.Utils.Types.{CpuResponse, Instruccion, TablaSegmento}
use tp_so20231c.Cpu.Registros.{
  escribir_valor_en_registro, encontrar_valor_registro, encontrar_tamanio_registro,
}
use tp_so20231c.Cpu.Enteros.{atoi, suma_int}
use tp_so20231c.Cpu.Decode.{
  Mensaje, leer, escribir, contexto, crudo, desreferenciar, traducir, seg_fault, caso_set,
  caso_mov_in, caso_mov_out, caso_f_read_write, caso_archivo_numero, caso_create_segment, caso_io,
  caso_recurso, caso_archivo, caso_delete_segment, ejecutar,
}
use tp_so20231c.Cpu.Decode.Leyes.Efectos.{Conserva, accede, banderas, asignada, Hecho}

intacto : (info : CpuResponse) → Conserva info info
intacto info = (refl, refl, refl, refl)

caso_set-Hecho :
    (tam : Text) (info : CpuResponse) (i : Instruccion)
    → Cumple (Hecho tam info Tipo.set) (caso_set info i)
unfolding caso_set
caso_set-Hecho tam info i = bind-Cumple _ (desreferenciar i.parametro1) _ λ r _.
    bind-Cumple _ (desreferenciar i.parametro2) _ λ v _.
      bind-Cumple _ (escribir_valor_en_registro v r info.registros) _
        λ s _. ok-Cumple _ (intacto info, inl refl, inl refl)

caso_mov_in-Hecho :
    (memoria : ℤ → ℤ → ℤ → Outcome Text) (tam : Text) (info : CpuResponse) (i : Instruccion)
    → Cumple (Hecho tam info Tipo.mov_in) (caso_mov_in memoria tam info i)
unfolding caso_mov_in seg_fault
caso_mov_in-Hecho memoria tam info i =
    bind-Cumple _ (traducir tam info.tabla_segmentos i.parametro2) _ λ t e.
      if-Cumple _ (not (ltb_ℤ t.0.limite (t.1))) _ _
        (λ c. bind-Cumple _ (desreferenciar i.parametro1) _ λ r _.
          bind-Cumple _ (memoria (t.0.base +ℤ t.1) (pos (encontrar_tamanio_registro r)) info.pid) _
            λ v _. bind-Cumple _ (escribir_valor_en_registro v r info.registros) _ λ s _.
              ok-Cumple _ (
                intacto info,
                inl refl,
                inr (refl, _, refl, (refl, (_, _, _, e, no_menor (t.0.limite) (t.1) c, refl))),
              ))
        (λ _. ok-Cumple _ (intacto info, inr (refl, refl), inr (refl, _, refl, refl)))

caso_mov_out-Hecho :
    (tam : Text) (info : CpuResponse) (i : Instruccion)
    → Cumple (Hecho tam info Tipo.mov_out) (caso_mov_out tam info i)
unfolding caso_mov_out seg_fault
caso_mov_out-Hecho tam info i =
    bind-Cumple _ (traducir tam info.tabla_segmentos i.parametro1) _ λ t e.
      if-Cumple _ (not (ltb_ℤ t.0.limite (t.1))) _ _
        (λ c. bind-Cumple _ (desreferenciar i.parametro2) _ λ r _.
          bind-Cumple _ (encontrar_valor_registro r info.registros) _ λ v _. ok-Cumple _ (
            intacto info,
            inl refl,
            inr (refl, _, refl, (refl, (_, _, _, e, no_menor (t.0.limite) (t.1) c, refl))),
          ))
        (λ _. ok-Cumple _ (intacto info, inr (refl, refl), inr (refl, _, refl, refl)))

caso_f_read_write-Hecho :
    (n flag : ℕ) (tam : Text) (info : CpuResponse) (i : Instruccion)
    → flag ≡ asignada banderas n info.flag
    → accede n ≡ true
    → Cumple (Hecho tam info n) (caso_f_read_write flag tam info i)
unfolding caso_f_read_write
caso_f_read_write-Hecho n flag tam info i h a =
    bind-Cumple _ (desreferenciar i.parametro1) _ λ archivo _.
      bind-Cumple _ (desreferenciar i.parametro3) _ λ tercero _.
        bind-Cumple _ (traducir tam info.tabla_segmentos i.parametro2) _ λ t _.
          if-Cumple _ (not (ltb_ℤ t.0.limite (suma_int t.1 (atoi tercero)))) _ _
            (λ _. ok-Cumple _ (intacto info, inl h, inl refl))
            (λ _. ok-Cumple _ (intacto info, inr (refl, a), inl refl))

-- The cases that only fill in fields of the context.
module _ (n flag : ℕ) (tam : Text) (info : CpuResponse) (i : Instruccion)
    (h : flag ≡ asignada banderas n info.flag) where
  caso_archivo_numero-Hecho : Cumple (Hecho tam info n) (caso_archivo_numero flag info i)
  unfolding caso_archivo_numero
  caso_archivo_numero-Hecho = bind-Cumple _ (desreferenciar i.parametro1) _ λ _ _.
      bind-Cumple _ (desreferenciar i.parametro2) _
        λ _ _. ok-Cumple _ (intacto info, inl h, inl refl)

  caso_recurso-Hecho : Cumple (Hecho tam info n) (caso_recurso flag info i)
  unfolding caso_recurso
  caso_recurso-Hecho =
      bind-Cumple _ (desreferenciar i.parametro1) _
        λ _ _. ok-Cumple _ (intacto info, inl h, inl refl)

  caso_archivo-Hecho : Cumple (Hecho tam info n) (caso_archivo flag info i)
  unfolding caso_archivo
  caso_archivo-Hecho =
      bind-Cumple _ (desreferenciar i.parametro1) _
        λ _ _. ok-Cumple _ (intacto info, inl h, inl refl)

module _ (tam : Text) (info : CpuResponse) (i : Instruccion) where
  caso_create_segment-Hecho :
      Cumple (Hecho tam info Tipo.create_segment) (caso_create_segment info i)
  unfolding caso_create_segment
  caso_create_segment-Hecho = bind-Cumple _ (desreferenciar i.parametro1) _ λ _ _.
      bind-Cumple _ (desreferenciar i.parametro2) _
        λ _ _. ok-Cumple _ (intacto info, inl refl, inl refl)

  caso_io-Hecho : Cumple (Hecho tam info Tipo.io) (caso_io info i)
  unfolding caso_io
  caso_io-Hecho =
      bind-Cumple _ (desreferenciar i.parametro1) _
        λ _ _. ok-Cumple _ (intacto info, inl refl, inl refl)

  caso_delete_segment-Hecho :
      Cumple (Hecho tam info Tipo.delete_segment) (caso_delete_segment info i)
  unfolding caso_delete_segment
  caso_delete_segment-Hecho =
      bind-Cumple _ (desreferenciar i.parametro1) _
        λ _ _. ok-Cumple _ (intacto info, inl refl, inl refl)

-- A branch of the `switch`.
rama :
    (n : ℕ) (tam : Text) (info : CpuResponse) (i : Instruccion)
    (p : Outcome (CpuResponse × List Mensaje))
    → Cumple (Hecho tam info n) p
    → (i.nombre == n) ≡ true
    → Cumple (Hecho tam info i.nombre) p
rama n tam info i p h e = rw ((==_iff i.nombre n).0 e) h

pub ejecutar-Hecho :
    (memoria : ℤ → ℤ → ℤ → Outcome Text) (tam : Text) (info : CpuResponse) (i : Instruccion)
    → Cumple (Hecho tam info i.nombre) (ejecutar memoria tam info i)
unfolding ejecutar
ejecutar-Hecho memoria tam info i =
    if-Cumple _ (i.nombre == Tipo.set) _ _ (rama Tipo.set tam info i _ (caso_set-Hecho tam info i))
      λ _.
        if-Cumple _ (i.nombre == Tipo.mov_in) _ _
          (rama Tipo.mov_in tam info i _ (caso_mov_in-Hecho memoria tam info i))
          λ _.
            if-Cumple _ (i.nombre == Tipo.mov_out) _ _
              (rama Tipo.mov_out tam info i _ (caso_mov_out-Hecho tam info i))
              λ _.
                if-Cumple _ (i.nombre == Tipo.f_read) _ _
                  (rama Tipo.f_read tam info i _
                    (caso_f_read_write-Hecho Tipo.f_read _ tam info i refl refl))
                  λ _.
                    if-Cumple _ (i.nombre == Tipo.f_write) _ _
                      (rama Tipo.f_write tam info i _
                        (caso_f_read_write-Hecho Tipo.f_write _ tam info i refl refl))
                      λ _.
                        if-Cumple _ (i.nombre == Tipo.f_truncate) _ _
                          (rama Tipo.f_truncate tam info i _
                            (caso_archivo_numero-Hecho Tipo.f_truncate _ tam info i refl))
                          λ _.
                            if-Cumple _ (i.nombre == Tipo.f_seek) _ _
                              (rama Tipo.f_seek tam info i _
                                (caso_archivo_numero-Hecho Tipo.f_seek _ tam info i refl))
                              λ _.
                                if-Cumple _ (i.nombre == Tipo.create_segment) _ _
                                  (rama Tipo.create_segment tam info i _
                                    (caso_create_segment-Hecho tam info i))
                                  λ _.
                                    if-Cumple _ (i.nombre == Tipo.io) _ _
                                      (rama Tipo.io tam info i _ (caso_io-Hecho tam info i))
                                      λ _.
                                        if-Cumple _ (i.nombre == Tipo.wait) _ _
                                          (rama Tipo.wait tam info i _
                                            (caso_recurso-Hecho Tipo.wait _ tam info i refl))
                                          λ _.
                                            if-Cumple _ (i.nombre == Tipo.signal) _ _
                                              (rama Tipo.signal tam info i _
                                                (caso_recurso-Hecho Tipo.signal _ tam info i refl))
                                              λ _.
                                                if-Cumple _ (i.nombre == Tipo.f_open) _ _
                                                  (rama Tipo.f_open tam info i _ (
                                                    caso_archivo-Hecho Tipo.f_open _ tam info i
                                                      refl))
                                                  λ _.
                                                    if-Cumple _ (i.nombre == Tipo.f_close) _ _
                                                      (rama Tipo.f_close tam info i _ (
                                                        caso_archivo-Hecho Tipo.f_close _ tam info i
                                                          refl))
                                                      λ _.
                                                        if-Cumple _
                                                          (i.nombre == Tipo.delete_segment) _ _
                                                          (rama Tipo.delete_segment tam info i _
                                                            (caso_delete_segment-Hecho tam info i))
                                                          λ _.
                                                            if-Cumple _ (i.nombre == Tipo.exit) _ _
                                                            (rama Tipo.exit tam info i _ (
                                                            ok-Cumple _
                                                            (intacto info, inl refl, inl refl)))
                                                            λ _.
                                                            if-Cumple _ (i.nombre == Tipo.yield) _ _
                                                            (rama Tipo.yield tam info i _ (
                                                            ok-Cumple _
                                                            (intacto info, inl refl, inl refl)))
                                                            λ _. exit-Cumple _
