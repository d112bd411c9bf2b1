-- ===== src/Prelude/Int.antt =====
-- int64: values of either sign, and the sum of two values that are not negative, which wraps.
use Prim.Native.Nat.{ℕ, ◌+◌, ◌-◌, ◌^◌}
use mathlib.Core.Bool.{Bool, true, false}
use mathlib.Core.Logic.{◌⊎◌}
use mathlib.Core.Path.{◌≡◌}
use native.Mathlib.Omega.{arith}
use letts.Prelude.Tests.{ltb, leb, ◌==◌, if◌then◌else◌}

-- `negsuc n` is -(n + 1).
pub data ℤ : Type 0 where
  pos : ℕ → ℤ
  negsuc : ℕ → ℤ

abbrev pub ltb_ℤ : ℤ → ℤ → Bool
ltb_ℤ (pos a) (pos b) = ltb a b
ltb_ℤ (pos a) (negsuc b) = false
ltb_ℤ (negsuc a) (pos b) = true
ltb_ℤ (negsuc a) (negsuc b) = ltb b a

abbrev pub leb_ℤ : ℤ → ℤ → Bool
leb_ℤ (pos a) (pos b) = leb a b
leb_ℤ (pos a) (negsuc b) = false
leb_ℤ (negsuc a) (pos b) = true
leb_ℤ (negsuc a) (negsuc b) = leb b a

abbrev pub eqb_ℤ : ℤ → ℤ → Bool
eqb_ℤ (pos a) (pos b) = a == b
eqb_ℤ (negsuc a) (negsuc b) = a == b
eqb_ℤ _ _ = false

abbrev pub max_int64 : ℕ
max_int64 = 2 ^ 63 - 1

-- a + b for 0 ≤ a, b < 2 ^ 63
unfoldable pub add_int64 : ℕ → ℕ → ℤ
add_int64 a b = if ltb (a + b) (2 ^ 63) then pos (a + b) else negsuc (2 ^ 64 - (a + b) - 1)

pub ltb_ℤ-total : (a b : ℤ) → (ltb_ℤ a b ≡ true) ⊎ (leb_ℤ b a ≡ true)
ltb_ℤ-total (pos a) (pos b) = ground arith
ltb_ℤ-total (pos a) (negsuc b) = ground arith
ltb_ℤ-total (negsuc a) (pos b) = ground arith
ltb_ℤ-total (negsuc a) (negsuc b) = ground arith
