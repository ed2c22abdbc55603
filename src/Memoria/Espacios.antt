-- ===== src/Memoria/Espacios.antt =====
-- segmentacion.c: counting and marking on the bitmap. Positions are not negative; `tam` is
-- `memoria_configs->tam_memoria`.
pub mod Cuenta
pub mod Huecos
pub mod Marcas
use tp_so20231c.Common.{
  ℕ, zero, suc, ◌+◌, ◌-◌, List, [], ◌∷◌, Bool, ltb, leb, Option, none, some, if◌then◌else◌, ◌/◌,
}
use tp_so20231c.Common.Int.{ℤ, pos, negsuc}
use tp_so20231c.Memoria.Bitarray.{Bitarray}

-- A stretch of free positions: a `segmento` whose `id` is not set.
pub record Hueco : Type 0 where
  pub base : ℕ
  pub limite : ℕ

-- How often `for (i = base; i <= base + limite; i++)` runs.
unfoldable pub vueltas : ℤ → ℕ
vueltas (pos n) = suc n
vueltas (negsuc n) = 0

-- `ceil(bits / 8.0)` is the quotient rounded up.
unfoldable pub bits_to_bytes : ℕ → ℕ
bits_to_bytes bits = if ltb bits 8 then 1 else (bits + 7) / 8

module _ (B : Bitarray) where
  -- The loops run while i < tam: `n` is tam - i.
  unfoldable pub contar_ocupados : ℕ → B.Rep → ℕ → ℕ
  contar_ocupados zero b i = 0
  contar_ocupados (suc n) b i =
      let resto = contar_ocupados n b (suc i) in if B.test b i then suc resto else 0

  unfoldable pub contar_libres : ℕ → B.Rep → ℕ → ℕ
  contar_libres zero b i = 0
  contar_libres (suc n) b i =
      let resto = contar_libres n b (suc i) in if B.test b i then 0 else suc resto

  unfoldable pub disponibles_desde : ℕ → B.Rep → ℕ → ℕ
  disponibles_desde zero b despl = 0
  disponibles_desde (suc n) b despl =
      let resto = disponibles_desde n b (suc despl) in if B.test b despl then resto else suc resto

module _ (B : Bitarray) (tam : ℕ) where
  unfoldable pub contar_espacios_ocupados_desde : B.Rep → ℕ → ℕ
  unfolding contar_ocupados
  contar_espacios_ocupados_desde b i = contar_ocupados B (tam - i) b i

  unfoldable pub contar_espacios_libres_desde : B.Rep → ℕ → ℕ
  unfolding contar_libres
  contar_espacios_libres_desde b i = contar_libres B (tam - i) b i

  -- The hole, and the position behind it.
  unfoldable pub buscar_lugar_disponibles : B.Rep → ℕ → Hueco × ℕ
  unfolding contar_espacios_ocupados_desde contar_espacios_libres_desde
  buscar_lugar_disponibles b base =
      let base' = if B.test b base then base + contar_espacios_ocupados_desde b base else base in
      let size = contar_espacios_libres_desde b base' in
      (record { base = base'; limite = size }, base' + size)

  -- On fuel; `none` when it is used up.
  unfoldable pub buscar_segmento_desde : ℕ → B.Rep → ℕ → Option (List Hueco)
  unfolding buscar_lugar_disponibles
  buscar_segmento_desde zero b base = if ltb base tam then none else some []
  buscar_segmento_desde (suc n) b base =
      let lugar = buscar_lugar_disponibles b base in
      let resto = buscar_segmento_desde n b (lugar.1) in
      if ltb base tam
      then elim resto [ none ↦ none | some huecos ↦ some (lugar.0 ∷ huecos) ]
      else some []

  -- At most `tam` turns.
  unfoldable pub buscar_segmento_disponible : B.Rep → Option (List Hueco)
  unfolding buscar_segmento_desde
  buscar_segmento_disponible b = buscar_segmento_desde tam b 0

  unfoldable pub tamanio_total_dispo : B.Rep → ℕ
  unfolding disponibles_desde
  tamanio_total_dispo b = disponibles_desde B tam b 0

  unfoldable pub puedo_guardar : B.Rep → ℕ → Bool
  unfolding tamanio_total_dispo
  puedo_guardar b pedido = leb pedido (tamanio_total_dispo b)

module _ (B : Bitarray) where
  -- The bits from base on, n of them.
  unfoldable pub marcar : ℕ → B.Rep → ℕ → B.Rep
  marcar zero b base = b
  marcar (suc n) b base = marcar n (B.set_bit b base) (suc base)

  unfoldable pub limpiar : ℕ → B.Rep → ℕ → B.Rep
  limpiar zero b base = b
  limpiar (suc n) b base = limpiar n (B.clean_bit b base) (suc base)

  unfoldable pub ocupar_bit_map : B.Rep → ℕ → ℤ → B.Rep
  unfolding vueltas marcar
  ocupar_bit_map b base limite = marcar (vueltas limite) b base

  unfoldable pub liberar_bit_map : B.Rep → ℕ → ℤ → B.Rep
  unfolding vueltas limpiar
  liberar_bit_map b base limite = limpiar (vueltas limite) b base
