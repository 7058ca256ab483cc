-- ===== src/Prelude/Text.antt =====
-- The order of texts that `sort.Strings` uses. UTF-8 keeps the order of code points, so comparing
-- bytes and comparing code points agree.
use Prim.Native.Nat.{compare, Ordering}
use Prim.Native.Char.{code}
use Prim.Native.String
use Prim.Native.String.{String}
use mathlib.Core.Path.{◌≡◌, refl}
use mathlib.Core.Logic.{◌⊎◌, inl, inr}
use mathlib.Core.Bool.{Bool, true, false}
use native.Mathlib.Omega.{arith}

-- Go's `+` on strings.
abbrev pub concat : String → String → String
concat s t = String.◌++◌ s t

unfoldable pub str_le : String → String → Bool
str_le String.[] _ = true
str_le (String.◌∷◌ c s) String.[] = false
str_le (String.◌∷◌ c s) (String.◌∷◌ d t) = elim (compare (code c) (code d)) [
  | Ordering.lt ↦ true
  | Ordering.eq ↦ str_le s t
  | Ordering.gt ↦ false
]

pub str_le_total : (s t : String) → (str_le s t ≡ true) ⊎ (str_le t s ≡ true)
unfolding str_le
str_le_total String.[] t = inl refl
str_le_total (String.◌∷◌ c s) String.[] = inr refl
str_le_total (String.◌∷◌ c s) (String.◌∷◌ d t) = ground (arith, str_le_total s t)

pub str_le_trans : (s t u : String) → str_le s t ≡ true → str_le t u ≡ true → str_le s u ≡ true
unfolding str_le
str_le_trans String.[] t u h k = refl
str_le_trans (String.◌∷◌ c s) String.[] u h k = cc
str_le_trans (String.◌∷◌ c s) (String.◌∷◌ d t) String.[] h k = cc
str_le_trans (String.◌∷◌ c s) (String.◌∷◌ d t) (String.◌∷◌ e u) h k =
    ground (arith, str_le_trans s t u)
