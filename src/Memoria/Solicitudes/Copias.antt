-- ===== src/Memoria/Solicitudes/Copias.antt =====
-- What a `memcpy` into the main memory, and one out of it, do.
use tp_so20231c.Common.{
  ℕ, zero, suc, ◌+◌, ◌≤◌, ◌<◌, ◌≡◌, refl, ap, List, [], ◌∷◌, ◌++◌, ◌⊎◌, inl, inr, ok, fault, take,
  drop, length, get_elem?, arith,
}
use tp_so20231c.Common.Int.{pos}
use tp_so20231c.Memoria.Solicitudes.{leer_bloque, escribir_bloque}

-- From d on stand the new bytes, and elsewhere the old ones.
pub record Escrito (memoria : List ℕ) (d : ℕ) (datos memoria' : List ℕ) : Type 0 where
  pub largo : length memoria' ≡ length memoria
  pub nuevos : (j : ℕ) → j < length datos → get_elem? memoria' (d + j) ≡ get_elem? datos j
  pub otros :
      (i : ℕ) → (i < d) ⊎ (d + length datos ≤ i) → get_elem? memoria' i ≡ get_elem? memoria i

abbrev pub copia : List ℕ → ℕ → List ℕ → List ℕ
copia m zero datos = datos ++ drop (length datos) m
copia [] (suc d) datos = datos
copia (y ∷ m) (suc d) datos = y ∷ copia m d datos

nada : (k : ℕ) → 0 + k ≡ k
nada k = omega arith

corrida : (d k : ℕ) → suc d + k ≡ suc (d + k)
corrida d k = omega arith

trozos :
    (m : List ℕ) (d : ℕ) (datos : List ℕ)
    → d ≤ length m
    → take d m ++ (datos ++ drop (d + length datos) m) ≡ copia m d datos
trozos m zero datos h = rw (nada (length datos)) refl
trozos [] (suc d) datos h = absurd (omega arith)
trozos (y ∷ m) (suc d) datos h =
    rw (corrida d (length datos), drop) (ap (λ l. y ∷ l) (trozos m d datos (omega arith)))

-- One byte more in front.
otro_byte :
    (x y : ℕ) (m datos m' : List ℕ) → Escrito m 0 datos m' → Escrito (y ∷ m) 0 (x ∷ datos) (x ∷ m')
otro_byte x y m datos m' e = record { largo = ap suc e.largo; nuevos = nuevo; otros = otro }
  where
    nuevo : (j : ℕ) → j < length (x ∷ datos) → get_elem? (x ∷ m') (0 + j) ≡ get_elem? (x ∷ datos) j
    nuevo zero l = refl
    nuevo (suc j) l = rw (nada (suc j)) (rw (nada j) at (e.nuevos j (omega arith)))

    otro :
        (i : ℕ)
        → (i < 0) ⊎ (0 + length (x ∷ datos) ≤ i)
        → get_elem? (x ∷ m') i ≡ get_elem? (y ∷ m) i
    otro zero (inl l) = absurd (omega arith)
    otro zero (inr l) = absurd (omega arith)
    otro (suc i) (inl l) = absurd (omega arith)
    otro (suc i) (inr l) = e.otros i (inr (omega arith))

corre_byte :
    (y d : ℕ) (m datos m' : List ℕ) → Escrito m d datos m' → Escrito (y ∷ m) (suc d) datos (y ∷ m')
corre_byte y d m datos m' e = record {
  largo = ap suc e.largo;
  nuevos = λ j l. rw (corrida d j) (e.nuevos j l);
  otros = otro;
}
  where
    otro :
        (i : ℕ)
        → (i < suc d) ⊎ (suc d + length datos ≤ i)
        → get_elem? (y ∷ m') i ≡ get_elem? (y ∷ m) i
    otro zero o = refl
    otro (suc i) (inl l) = e.otros i (inl (omega arith))
    otro (suc i) (inr l) = e.otros i (inr (omega arith))

pub copia-Escrito :
    (m : List ℕ) (d : ℕ) (datos : List ℕ)
    → d + length datos ≤ length m
    → Escrito m d datos (copia m d datos)
copia-Escrito m zero [] h = record {
  largo = refl;
  nuevos = λ j l. absurd (omega arith);
  otros = λ i o. refl;
}
copia-Escrito [] zero (x ∷ datos) h = absurd (omega arith)
copia-Escrito (y ∷ m) zero (x ∷ datos) h =
    otro_byte x y m datos _ (copia-Escrito m zero datos (omega arith))
copia-Escrito [] (suc d) datos h = absurd (omega arith)
copia-Escrito (y ∷ m) (suc d) datos h =
    corre_byte y d m datos _ (copia-Escrito m d datos (omega arith))

pub escribir_bloque_lem :
    (m : List ℕ) (d : ℕ) (datos : List ℕ)
    → ((d + length datos ≤ length m) × (escribir_bloque m (pos d) datos ≡ ok (copia m d datos)))
      ⊎ ((length m < d + length datos) × (escribir_bloque m (pos d) datos ≡ fault))
escribir_bloque_lem m d datos = ground (arith, trozos m d datos)

pub leer_bloque_lem :
    (b : List ℕ) (d n : ℕ)
    → ((d + n ≤ length b) × (leer_bloque b (pos d) (pos n) ≡ ok (take n (drop d b))))
      ⊎ ((length b < d + n) × (leer_bloque b (pos d) (pos n) ≡ fault))
leer_bloque_lem b d n = ground arith

-- What was written is what is read.
pub leer-copia :
    (m : List ℕ) (d : ℕ) (datos : List ℕ)
    → d + length datos ≤ length m
    → take (length datos) (drop d (copia m d datos)) ≡ datos
leer-copia m zero datos h = primeros datos (drop (length datos) m)
  where
    primeros : (xs ys : List ℕ) → take (length xs) (xs ++ ys) ≡ xs
    primeros [] ys = refl
    primeros (x ∷ xs) ys = ap (λ zs. x ∷ zs) (primeros xs ys)
leer-copia [] (suc d) datos h = absurd (omega arith)
leer-copia (y ∷ m) (suc d) datos h = leer-copia m d datos (omega arith)
