-- ===== src/Prelude/Int.antt =====
-- Go's `int`, where a value may be negative: `negsuc n` is -(n + 1).
use Prim.Native.Nat.{ℕ, compare, Ordering}
use mathlib.Core.Path.{◌≡◌}
use mathlib.Core.Bool.{Bool, true, false}
use mathlib.Core.Logic.{◌↔◌}
use native.Mathlib.Omega.{arith}

pub data ℤ : Type 0 where
  pos : ℕ → ℤ
  negsuc : ℕ → ℤ

abbrev same : ℕ → ℕ → Bool
same a b = elim (compare a b) [ Ordering.eq ↦ true | _ ↦ false ]

abbrev pub int_eq : ℤ → ℤ → Bool
int_eq (pos a) (pos b) = same a b
int_eq (negsuc a) (negsuc b) = same a b
int_eq _ _ = false

-- `0 <= s && s < n`
abbrev pub in_bounds : ℤ → ℕ → Bool
in_bounds (pos a) n = elim (compare a n) [ Ordering.lt ↦ true | _ ↦ false ]
in_bounds (negsuc _) n = false

pub int_eq_iff : (a b : ℤ) → (int_eq a b ≡ true) ↔ (a ≡ b)
int_eq_iff (pos a) (pos b) = ground arith
int_eq_iff (negsuc a) (negsuc b) = ground arith
int_eq_iff (pos a) (negsuc b) = ground arith
int_eq_iff (negsuc a) (pos b) = ground arith
