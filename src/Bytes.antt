-- ===== src/Bytes.antt =====
-- include/stice/types.hpp: byte buffers, 4-byte alignment and the big-endian helpers.
-- A byte buffer is the list of its bytes; a pointer into it is the suffix that it points at.
pub mod Laws
use Prim.Native.Nat.{bit_and, bit_or}
use stice.Base.{
  ℕ, ◌+◌, ◌-◌, ◌*◌, ◌/◌, ◌%◌, ◌^◌, ◌<◌, List, [], ◌∷◌, ◌++◌, length, take, drop, get_or,
}

abbrev pub IsByte : ℕ → Type 0
IsByte b = b < 256

-- `(n + 3) & ~size_t(3)` on a 64-bit size_t.
unfoldable pub padded_size : ℕ → ℕ
padded_size n = bit_and ((n + 3) % 2 ^ 64) (2 ^ 64 - 4)

-- `p[i]`: every read of the source stands behind a test of the size.
abbrev pub byte_at : List ℕ → ℕ → ℕ
byte_at p i = get_or p i 0

unfoldable pub read_u16_be : List ℕ → ℕ
read_u16_be p = bit_or (byte_at p 0 * 2 ^ 8) (byte_at p 1)

unfoldable pub read_u32_be : List ℕ → ℕ
read_u32_be p =
    bit_or (bit_or (bit_or (byte_at p 0 * 2 ^ 24) (byte_at p 1 * 2 ^ 16)) (byte_at p 2 * 2 ^ 8))
      (byte_at p 3)

-- The bytes that the write helpers store at their pointer.
unfoldable pub write_u16_be : ℕ → List ℕ
write_u16_be v = v / 2 ^ 8 % 256 ∷ bit_and v 0xff % 256 ∷ []

unfoldable pub write_u32_be : ℕ → List ℕ
write_u32_be v = v / 2 ^ 24 % 256 ∷ v / 2 ^ 16 % 256 ∷ v / 2 ^ 8 % 256 ∷ bit_and v 0xff % 256 ∷ []

-- The buffer after `bs` is written at offset `n`, inside it.
unfoldable pub overwrite : List ℕ → ℕ → List ℕ → List ℕ
overwrite raw n bs = take n raw ++ (bs ++ drop (n + length bs) raw)
