-- ===== src/Base/Bits/Peel.antt =====
-- One equation for the lowest digit of each bit operation, with the fuel of `digits` gone.
use Prim.Native.Nat.{ℕ, zero, suc, ◌+◌, ◌*◌, ◌/◌, ◌%◌, ◌≤◌, max, min, differ, digits, bitwise}
use Prim.Native.Nat.{bit_and, bit_or, bit_xor, bit_and-bitwise, bit_or-bitwise, bit_xor-bitwise}
use mathlib.Core.Path.{◌≡◌, refl, ap}
use native.Mathlib.Omega.{arith}

module _ (z : ℕ → ℕ) (f : ℕ → ℕ → ℕ) where
  -- Any two counts of digits that reach the end agree.
  enough : (n m a b : ℕ) → a ≤ n → a ≤ m → digits z f n a b ≡ digits z f m a b
  enough zero m (suc a) b h k = absurd (omega arith)
  enough zero zero zero b h k = refl
  enough zero (suc m) zero b h k = refl
  enough (suc n) zero (suc a) b h k = absurd (omega arith)
  enough (suc n) zero zero b h k = refl
  enough (suc n) (suc m) zero b h k = refl
  enough (suc n) (suc m) (suc a) b h k =
      ap (λ (t : ℕ). t * 2 + f (suc a % 2) (b % 2))
        (enough n m (suc a / 2) (b / 2) (omega arith) (omega arith))

  peel :
      (a b : ℕ)
      → bitwise z f (suc a) b ≡ bitwise z f (suc a / 2) (b / 2) * 2 + f (suc a % 2) (b % 2)
  peel a b =
      ap (λ (t : ℕ). t * 2 + f (suc a % 2) (b % 2))
        (enough a (suc a / 2) (suc a / 2) (b / 2) (omega arith) (omega arith))

pub bit_xor-peel : (a b : ℕ) → bit_xor a b ≡ bit_xor (a / 2) (b / 2) * 2 + differ (a % 2) (b % 2)
bit_xor-peel zero b = simp bit_xor-bitwise (omega arith)
bit_xor-peel (suc a) b = simp bit_xor-bitwise (peel (λ y. y) differ a b)

pub bit_or-peel : (a b : ℕ) → bit_or a b ≡ bit_or (a / 2) (b / 2) * 2 + max (a % 2) (b % 2)
bit_or-peel zero b = simp bit_or-bitwise (omega arith)
bit_or-peel (suc a) b = simp bit_or-bitwise (peel (λ y. y) max a b)

pub bit_and-peel : (a b : ℕ) → bit_and a b ≡ bit_and (a / 2) (b / 2) * 2 + min (a % 2) (b % 2)
bit_and-peel zero b = simp bit_and-bitwise (omega arith)
bit_and-peel (suc a) b = simp bit_and-bitwise (peel (λ y. 0) min a b)
