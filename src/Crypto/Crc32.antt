-- ===== src/Crypto/Crc32.antt =====
-- src/crypto/crypto.cpp: the table-driven CRC of STUN's FINGERPRINT (polynomial 0xEDB88320).
pub mod Bitwise
use Prim.Native.Nat.{bit_and, bit_xor}
use stice.Base.{ℕ, zero, suc, ◌+◌, ◌/◌, ◌^◌, List, [], ◌∷◌, ◌==◌, get_or, if◌then◌else◌}

-- `c = (c & 1) ? (0xEDB88320u ^ (c >> 1)) : (c >> 1)`.
unfoldable pub crc_step : ℕ → ℕ
crc_step c = if bit_and c 1 == 1 then bit_xor 0xedb88320 (c / 2) else c / 2

-- k rounds of the inner loop.
unfoldable pub crc_steps : ℕ → ℕ → ℕ
unfolding crc_step
crc_steps zero c = c
crc_steps (suc k) c = crc_steps k (crc_step c)

-- The entries of the table from i on, n of them.
unfoldable pub crc_entries : ℕ → ℕ → List ℕ
crc_entries zero i = []
crc_entries (suc n) i = crc_steps 8 i ∷ crc_entries n (i + 1)

unfoldable pub crc_table : List ℕ
unfolding crc_entries crc_steps
crc_table = crc_entries 256 0

-- The loop over the bytes.
unfoldable pub crc_loop : ℕ → List ℕ → ℕ
crc_loop crc [] = crc
crc_loop crc (b ∷ bytes) =
    crc_loop (bit_xor (get_or crc_table (bit_and (bit_xor crc b) 0xff) 0) (crc / 2 ^ 8)) bytes

unfoldable pub crc32 : List ℕ → ℕ
unfolding crc_loop
crc32 bytes = bit_xor (crc_loop 0xffff_ffff bytes) 0xffff_ffff
