-- ===== src/Tests/Memoria.antt =====
-- segmentacion.c: a memory of 16 positions with one segment of 4.
use tp_so20231c.Common.{
  ℕ, ◌≤◌, ◌<◌, ◌≡◌, ◌≢◌, refl, List, [], ◌∷◌, some, Bool, true, false, ok, arith, ◌⊎◌, ◌==◌, ltb,
  if◌then◌else◌,
}
use tp_so20231c.Common.Int.{pos}
use tp_so20231c.Utils.Header
use tp_so20231c.Utils.Types.{TablaSegmento}
use tp_so20231c.Utils.Segments.{find_segmento_con_id}
use tp_so20231c.Memoria.Bitarray.{Bitarray}
use tp_so20231c.Memoria.Espacios.{Hueco, buscar_segmento_disponible, tamanio_total_dispo}
use tp_so20231c.Memoria.Espacios.Huecos.{Describe, suma, buscar_segmento_disponible_lem}
use tp_so20231c.Memoria.Segmentos.{Memoria, quitar, crear_nuevo_segmento, eleminar_segmento}
use tp_so20231c.Memoria.Segmentos.Validez.{inicio, fin, Valida, Creado, crear_nuevo_segmento_lem}
use tp_so20231c.Memoria.Segmentos.Borrado.{SinVecina, eleminar_segmento_lem, eleminar-Valida}
use tp_so20231c.Memoria.Segmentos.Deshecho.{crear-eleminar}

abbrev pub poner : (ℕ → Bool) → ℕ → Bool → ℕ → Bool
poner b i v j = if j == i then v else b j

abbrev pub bits : Bitarray
bits = record {
  Rep = ℕ → Bool;
  bits = 128;
  test = λ b i. b i;
  set_bit = λ b i. poner b i true;
  clean_bit = λ b i. poner b i false;
  test-set_bit = λ b i h. ground arith;
  test-set_bit_ne = λ b i j h n. ground arith;
  test-clean_bit = λ b i h. ground arith;
  test-clean_bit_ne = λ b i j h n. ground arith;
}

-- The positions 0 to 4 are occupied.
abbrev pub mapa : ℕ → Bool
mapa j = ltb j 5

abbrev pub cero : TablaSegmento
cero = record { id = pos 0; pid = pos 0; id_seg_pcb = pos 0; limite = pos 4; base = pos 0 }

abbrev pub inicial : Memoria bits
inicial = record { mapa = mapa; tabla = cero ∷ [] }

pub inicial-Valida : Valida bits 16 mapa (cero ∷ [])
inicial-Valida = ((refl, refl, omega arith, λ j l u. ground arith), tt, tt)

buscar_segmento_example :
    (huecos : List Hueco) × (buscar_segmento_disponible bits 16 mapa ≡ some huecos)
    × Describe bits 16 mapa 0 huecos
    × (suma huecos ≡ tamanio_total_dispo bits 16 mapa)
buscar_segmento_example = buscar_segmento_disponible_lem bits 16 mapa

abbrev nuevo : TablaSegmento
nuevo = record { id = pos 5; pid = pos 7; id_seg_pcb = pos 2; limite = pos 3; base = pos 5 }

abbrev con_nuevo : Memoria bits
con_nuevo = record {
  mapa = poner (poner (poner (poner mapa 5 true) 6 true) 7 true) 8 true;
  tabla = cero ∷ nuevo ∷ [];
}

abbrev creado : Memoria bits × TablaSegmento × List ℕ
creado = (con_nuevo, nuevo, Header.general ∷ [])

crear_example :
    Creado bits 16 1 inicial (pos 5) 3 (pos 7) creado
    × Valida bits 16 con_nuevo.mapa con_nuevo.tabla
unfolding crear_nuevo_segmento
crear_example =
    crear_nuevo_segmento_lem bits 16 1 ok inicial (pos 5) (pos 7) 3 creado (omega arith)
      inicial-Valida refl

eleminar_example :
    (m' : Memoria bits) × (eleminar_segmento bits inicial (pos 0) ≡ ok m')
    × (m'.tabla ≡ quitar (cero ∷ []) (pos 0))
    × ((j : ℕ) → inicio cero ≤ j → j ≤ fin cero → m'.mapa j ≡ false)
    × ((j : ℕ) → (j < inicio cero) ⊎ (fin cero < j) → m'.mapa j ≡ mapa j)
unfolding find_segmento_con_id
eleminar_example =
    eleminar_segmento_lem bits 16 inicial (pos 0) cero (omega arith) inicial-Valida refl

abbrev vacia : Memoria bits
vacia = record {
  mapa = poner (poner (poner (poner (poner mapa 0 false) 1 false) 2 false) 3 false) 4 false;
  tabla = [];
}

sin_vecina : SinVecina cero []
sin_vecina u m = elim m [ ]

eleminar-Valida_example : Valida bits 16 vacia.mapa []
unfolding eleminar_segmento quitar
eleminar-Valida_example =
    eleminar-Valida bits 16 inicial vacia (pos 0) cero (omega arith) inicial-Valida refl sin_vecina
      refl

crear-eleminar_example :
    (m' : Memoria bits) × (eleminar_segmento bits con_nuevo (pos 5) ≡ ok m')
    × (m'.tabla ≡ cero ∷ [])
    × ((j : ℕ) → j ≢ fin nuevo → m'.mapa j ≡ mapa j)
    × (m'.mapa (fin nuevo) ≡ false)
unfolding crear_nuevo_segmento find_segmento_con_id
crear-eleminar_example =
    crear-eleminar bits 16 1 ok inicial (pos 5) (pos 7) 3 creado (omega arith) inicial-Valida refl
      refl
