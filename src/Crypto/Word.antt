-- ===== src/Crypto/Word.antt =====
-- src/crypto/crypto.cpp: the 32-bit word operations of the hash functions.
use Prim.Native.Nat.{bit_or}
use stice.Base.{ℕ, ◌+◌, ◌-◌, ◌*◌, ◌/◌, ◌%◌, ◌^◌}

-- `(x << n) | (x >> (32 - n))` and its mirror image, on a uint32_t.
unfoldable pub rotl32 : ℕ → ℕ → ℕ
rotl32 x n = bit_or (x * 2 ^ n % 2 ^ 32) (x / 2 ^ (32 - n))

unfoldable pub rotr32 : ℕ → ℕ → ℕ
rotr32 x n = bit_or (x / 2 ^ n) (x * 2 ^ (32 - n) % 2 ^ 32)

-- `~x` and the sum of uint32_t values, which wraps.
abbrev pub complement : ℕ → ℕ
complement x = 2 ^ 32 - 1 - x

infixl 65 ◌+32◌
abbrev pub ◌+32◌ : ℕ → ℕ → ℕ
a +32 b = (a + b) % 2 ^ 32
