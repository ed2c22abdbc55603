-- ===== src/Consola/Envio/Lineas.antt =====
-- The lines of a pseudocode as the console's reader understands them, and what each branch of the
-- reader makes of one, against what the kernel reads of it.
use tp_so20231c.Common.{
  ℕ, ◌^◌, ◌<◌, ◌≡◌, List, [], ◌∷◌, arith, Option, some, Bool, true, false, Text, IsText, ◌==◌,
  length, ◌+◌,
}
use tp_so20231c.Utils.Tipo
use tp_so20231c.Utils.Instructions.{cuantos_parametros}
use tp_so20231c.Utils.Instructions.Obtener.{parametros_del_caso}
use tp_so20231c.Consola.{tres, dos, uno, seek, yield, caso_de}

-- A line: its word, the number of its instruction, its operands.
pub data Linea : Type 0 where
  l_tres : Text → ℕ → Text → Text → Text → Linea
  l_dos : Text → ℕ → Text → Text → Linea
  l_seek : Text → Text → Text → Linea
  l_uno : Text → ℕ → Text → Linea
  l_yield : Text → Linea

-- The words that stand in the file.
abbrev pub palabras : Linea → List Text
palabras (l_tres w n a b c) = w ∷ a ∷ b ∷ c ∷ []
palabras (l_dos w n a b) = w ∷ a ∷ b ∷ []
palabras (l_seek w a b) = w ∷ a ∷ b ∷ []
palabras (l_uno w n a) = w ∷ a ∷ []
palabras (l_yield w) = w ∷ []

-- The instruction that is meant: its name and its parameters.
abbrev pub significado : Linea → ℕ × List (Option Text)
significado (l_tres w n a b c) = (n, some a ∷ some b ∷ some c ∷ [])
significado (l_dos w n a b) = (n, some a ∷ some b ∷ [])
significado (l_seek w a b) = (Tipo.f_seek, some a ∷ some b ∷ [])
significado (l_uno w n a) = (n, some a ∷ [])
significado (l_yield w) = (Tipo.yield, [])

-- The word is the instruction's and the operands are texts. An F_SEEK is well only while
-- `parametro3` is NULL (`con3` is false).
abbrev pub IsLinea : Bool → Linea → Type 0
IsLinea con3 (l_tres w n a b c) = (caso_de w ≡ tres n) × IsText a × IsText b × IsText c
IsLinea con3 (l_dos w n a b) = (caso_de w ≡ dos n) × IsText a × IsText b
IsLinea con3 (l_seek w a b) = (caso_de w ≡ seek) × IsText a × IsText b × (con3 ≡ false)
IsLinea con3 (l_uno w n a) = (caso_de w ≡ uno n) × IsText a
IsLinea con3 (l_yield w) = caso_de w ≡ yield

-- The word and the operands, each with its NUL, are no longer than the blocks they are read into.
abbrev pub CabeLinea : (ℕ → ℕ) → Linea → Type 0
CabeLinea usable (l_tres w n a b c) =
    (length w < usable 8) × (length a < usable 20) × (length b < usable 20) × (length c < usable 20)
CabeLinea usable (l_dos w n a b) =
    (length w < usable 8) × (length a < usable 20) × (length b < usable 20)
CabeLinea usable (l_seek w a b) =
    (length w < usable 8) × (length a < usable 20) × (length b < usable 20)
CabeLinea usable (l_uno w n a) = (length w < usable 8) × (length a < usable 20)
CabeLinea usable (l_yield w) = length w < usable 8

-- The bytes of a line in the buffer: 4 of its name, and 5 more than its length of each operand.
abbrev pub peso_linea : Linea → ℕ
peso_linea (l_tres w n a b c) = 4 + (length a + 5 + (length b + 5 + (length c + 5)))
peso_linea (l_dos w n a b) = 4 + (length a + 5 + (length b + 5))
peso_linea (l_seek w a b) = 4 + (length a + 5 + (length b + 5))
peso_linea (l_uno w n a) = 4 + (length a + 5)
peso_linea (l_yield w) = 4

-- Whether the line leaves `parametro3` set.
abbrev pub deja : Linea → Bool
deja (l_tres w n a b c) = true
deja _ = false

-- What is known of the number that a branch sets.
abbrev pub Tiene : ℕ → ℕ → Type 0
Tiene k n =
    (parametros_del_caso n ≡ k)
    × (cuantos_parametros n ≡ k)
    × ((n == Tipo.exit) ≡ false)
    × (n < 2 ^ 32)

pub tres-Tiene : (w : Text) (n : ℕ) → caso_de w ≡ tres n → Tiene 3 n
unfolding caso_de parametros_del_caso cuantos_parametros
tres-Tiene w n e = ground arith

pub dos-Tiene : (w : Text) (n : ℕ) → caso_de w ≡ dos n → Tiene 2 n
unfolding caso_de parametros_del_caso cuantos_parametros
dos-Tiene w n e = ground arith

pub uno-Tiene : (w : Text) (n : ℕ) → caso_de w ≡ uno n → Tiene 1 n
unfolding caso_de parametros_del_caso cuantos_parametros
uno-Tiene w n e = ground arith
