-- ===== src/Bytes/Laws.antt =====
-- The helpers of include/stice/types.hpp in plain arithmetic, and as inverses.
use Prim.Native.Nat.{bit_and, bit_or}
use stice.Base.{
  ℕ, ◌+◌, ◌-◌, ◌*◌, ◌/◌, ◌%◌, ◌^◌, ◌≤◌, ◌<◌, ◌≡◌, refl, ap, List, [], ◌∷◌, ◌++◌, arith, length, All,
  take, drop, length-append, length-take, length-drop,
}
use stice.Base.Bits.{or_disjoint, and_low, and_shifted}
use stice.Bytes.{
  IsByte, padded_size, read_u16_be, read_u32_be, write_u16_be, write_u32_be, overwrite,
}

pub padded_size-div : (n : ℕ) → n + 3 < 2 ^ 64 → padded_size n ≡ (n + 3) / 4 * 4
unfolding padded_size
padded_size-div n h =
    omega (arith, and_shifted 2 ((n + 3) % 2 ^ 64) (2 ^ 62 - 1), and_low 62 ((n + 3) % 2 ^ 64 / 4))

-- On every size that leaves room for the alignment, `paddedSize` gives the least multiple of 4 that
-- is not below it.
pub padded_size-least :
    (n : ℕ)
    → n + 3 < 2 ^ 64
    → (n ≤ padded_size n) × (padded_size n % 4 ≡ 0) × (padded_size n < n + 4)
padded_size-least n h = omega (arith, padded_size-div n h)

low_byte : (v : ℕ) → bit_and v 0xff ≡ v % 256
low_byte v = and_low 8 v

pub write_u16_be-bytes : (v : ℕ) → All IsByte (write_u16_be v)
unfolding write_u16_be
write_u16_be-bytes v = omega arith

pub length-write_u16_be : (v : ℕ) → length (write_u16_be v) ≡ 2
unfolding write_u16_be
length-write_u16_be v = refl

pub length-write_u32_be : (v : ℕ) → length (write_u32_be v) ≡ 4
unfolding write_u32_be
length-write_u32_be v = refl

pub write_u32_be-bytes : (v : ℕ) → All IsByte (write_u32_be v)
unfolding write_u32_be
write_u32_be-bytes v = omega arith

pub read_u16_be-sum : (a b : ℕ) (rest : List ℕ) → b < 256 → read_u16_be (a ∷ b ∷ rest) ≡ a * 256 + b
unfolding read_u16_be
read_u16_be-sum a b rest h = or_disjoint 8 a b h

pub read_u32_be-sum :
    (a b c d : ℕ) (rest : List ℕ)
    → b < 256
    → c < 256
    → d < 256
    → read_u32_be (a ∷ b ∷ c ∷ d ∷ rest) ≡ a * 2 ^ 24 + b * 2 ^ 16 + c * 2 ^ 8 + d
unfolding read_u32_be
read_u32_be-sum a b c d rest hb hc hd = omega (
  arith,
  ap (λ (t : ℕ). bit_or (bit_or t (c * 2 ^ 8)) d) top,
  ap (λ (t : ℕ). bit_or t d) middle,
  or_disjoint 8 (a * 2 ^ 16 + b * 2 ^ 8 + c) d hd,
)
  where
    top : bit_or (a * 2 ^ 24) (b * 2 ^ 16) ≡ (a * 2 ^ 8 + b) * 2 ^ 16
    top = omega (arith, or_disjoint 24 a (b * 2 ^ 16) (omega arith))

    middle : bit_or ((a * 2 ^ 8 + b) * 2 ^ 16) (c * 2 ^ 8) ≡ (a * 2 ^ 16 + b * 2 ^ 8 + c) * 2 ^ 8
    middle = omega (arith, or_disjoint 16 (a * 2 ^ 8 + b) (c * 2 ^ 8) (omega arith))

-- A 16-bit number that `writeU16Be` stores is the number that `readU16Be` reads there, whatever
-- bytes follow.
pub read-write_u16 : (v : ℕ) (rest : List ℕ) → v < 2 ^ 16 → read_u16_be (write_u16_be v ++ rest) ≡ v
unfolding write_u16_be
read-write_u16 v rest h =
    omega (
      arith,
      low_byte v,
      read_u16_be-sum (v / 2 ^ 8 % 256) (bit_and v 0xff % 256) rest (omega arith),
    )

-- The same for 32 bits.
pub read-write_u32 : (v : ℕ) (rest : List ℕ) → v < 2 ^ 32 → read_u32_be (write_u32_be v ++ rest) ≡ v
unfolding write_u32_be
read-write_u32 v rest h = omega (
  arith,
  low_byte v,
  read_u32_be-sum (v / 2 ^ 24 % 256) (v / 2 ^ 16 % 256) (v / 2 ^ 8 % 256) (bit_and v 0xff % 256)
      rest (omega arith) (omega arith) (omega arith),
)

pub read_u16_be-lt : (p : List ℕ) → All IsByte p → read_u16_be p < 2 ^ 16
unfolding read_u16_be
read_u16_be-lt [] h = omega arith
read_u16_be-lt (a ∷ []) h = omega (arith, or_disjoint 8 a 0 (omega arith))
read_u16_be-lt (a ∷ b ∷ rest) h = omega (arith, or_disjoint 8 a b h.1.0)

pub length-overwrite :
    (raw : List ℕ) (n : ℕ) (bs : List ℕ)
    → n + length bs ≤ length raw
    → length (overwrite raw n bs) ≡ length raw
unfolding overwrite
length-overwrite raw n bs h = omega (
  arith,
  length-append (take n raw) (bs ++ drop (n + length bs) raw),
  length-append bs (drop (n + length bs) raw),
  length-take n raw,
  length-drop (n + length bs) raw,
)
