-- ===== src/Common/Strings.antt =====
-- C texts: the bytes in front of the closing NUL.
use Prim.Native.Nat.{ℕ, ◌+◌, ◌<◌, ◌^◌}
use Prim.Native.Char.{code}
use Prim.Native.String.{String}
use mathlib.Core.Path.{◌≡◌, refl}
use mathlib.Core.Logic.{◌≢◌, ◌↔◌}
use mathlib.Core.Bool.{Bool, true, false, ◌&&◌}
use mathlib.Core.List.{List, [], ◌∷◌}
use native.Mathlib.Omega.{arith}
use tp_so20231c.Common.Tests.{◌==◌}
use tp_so20231c.Common.Lists.{length}

abbrev pub Text : Type 0
Text = List ℕ

-- The bytes of a literal of the source (all of them are ASCII).
abbrev pub codes : String → Text
codes String.[] = []
codes (String.◌∷◌ c s) = code c ∷ codes s

-- strcmp(s, t) == 0
unfoldable pub str_eq : Text → Text → Bool
str_eq [] [] = true
str_eq [] (b ∷ t) = false
str_eq (a ∷ s) [] = false
str_eq (a ∷ s) (b ∷ t) = (a == b) && str_eq s t

pub str_eq_iff : (s t : Text) → (str_eq s t ≡ true) ↔ (s ≡ t)
unfolding str_eq
str_eq_iff [] [] = (λ _. refl, λ _. refl)
str_eq_iff [] (b ∷ t) = (λ h. cc, λ h. cc)
str_eq_iff (a ∷ s) [] = (λ h. cc, λ h. cc)
str_eq_iff (a ∷ s) (b ∷ t) = ground (arith, str_eq_iff s t)

-- No NUL inside.
abbrev pub NoNul : Text → Type 0
NoNul [] = Unit {0}
NoNul (c ∷ s) = (c ≢ 0) × NoNul s

-- A text whose block, the NUL included, has a `uint32_t` length.
pub record IsText (s : Text) : Type 0 where
  pub no_nul : NoNul s
  pub short : length s + 1 < 2 ^ 32
