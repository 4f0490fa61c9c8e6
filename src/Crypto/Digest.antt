-- ===== src/Crypto/Digest.antt =====
-- src/crypto/crypto.cpp: what MD5Ctx, SHA1Ctx and SHA256Ctx and their update and final functions
-- share, over the block function of each.
pub mod Absorb
pub mod Chunks
pub mod Padding
use stice.Base.{
  ℕ, zero, suc, ◌+◌, ◌-◌, ◌*◌, ◌/◌, ◌%◌, ◌^◌, min, List, [], ◌∷◌, ◌++◌, length, take, drop, leb,
  ltb, ◌==◌, if◌then◌else◌,
}

-- `buf` holds the first `bufLen` bytes of the array; the code never reads those behind them.
pub record Ctx (H : Type 0) : Type 0 where
  pub h : H
  pub len : ℕ
  pub buf : List ℕ

module _ {H : Type 0} (block : H → List ℕ → H) where
  -- `while (len >= 64) { block(c, data); data += 64; len -= 64; }`: the state and the bytes left.
  unfoldable pub absorb : ℕ → H → List ℕ → H × List ℕ
  absorb zero h bytes = (h, bytes)
  absorb (suc fuel) h bytes =
      let rest = absorb fuel (block h (take 64 bytes)) (drop 64 bytes) in
      if leb 64 (length bytes) then rest else (h, bytes)

  -- The loop and the copy of what is left: `length bytes` rounds are enough.
  unfoldable pub absorb_all : H → ℕ → List ℕ → List ℕ → Ctx H
  absorb_all h total buf bytes =
      let (h', rest) = absorb (length bytes) h bytes in
      record { h = h'; len = total; buf = if length rest == 0 then buf else rest }

  -- `if (c.bufLen) { ... }`: the buffer is filled first, and hashed if it is full.
  unfoldable pub refill : H → ℕ → List ℕ → List ℕ → Ctx H
  refill h total buf bytes =
      let n = min (64 - length buf) (length bytes) in
      let full = buf ++ take n bytes in
      if length full == 64
      then absorb_all (block h full) total [] (drop n bytes)
      else absorb_all h total full (drop n bytes)

  unfoldable pub update : Ctx H → List ℕ → Ctx H
  update c bytes =
      let total = (c.len + length bytes) % 2 ^ 64 in
      if length c.buf == 0 then absorb_all c.h total [] bytes else refill c.h total c.buf bytes

  -- `while (c.bufLen != 56) update(c, &zero, 1)`.
  unfoldable pub pad_zeros : ℕ → Ctx H → Ctx H
  pad_zeros zero c = c
  pad_zeros (suc fuel) c =
      let rest = pad_zeros fuel (update c (0 ∷ [])) in if length c.buf == 56 then c else rest

  -- The finals up to the output of the words: the buffer takes 64 bytes, so 64 rounds are enough.
  unfoldable pub finish : (ℕ → List ℕ) → Ctx H → Ctx H
  finish length_bytes c =
      let bits = c.len * 8 % 2 ^ 64 in
      update (pad_zeros 64 (update c (0x80 ∷ []))) (length_bytes bits)

-- `lenBytes[i] = bits >> (8 * i)` of MD5, and `bits >> (56 - 8 * i)` of the SHA family.
unfoldable pub length_bytes_le : ℕ → List ℕ
length_bytes_le bits =
    bits % 256
    ∷ bits / 2 ^ 8 % 256
    ∷ bits / 2 ^ 16 % 256
    ∷ bits / 2 ^ 24 % 256
    ∷ bits / 2 ^ 32 % 256
    ∷ bits / 2 ^ 40 % 256
    ∷ bits / 2 ^ 48 % 256
    ∷ bits / 2 ^ 56 % 256
    ∷ []

unfoldable pub length_bytes_be : ℕ → List ℕ
length_bytes_be bits =
    bits / 2 ^ 56 % 256
    ∷ bits / 2 ^ 48 % 256
    ∷ bits / 2 ^ 40 % 256
    ∷ bits / 2 ^ 32 % 256
    ∷ bits / 2 ^ 24 % 256
    ∷ bits / 2 ^ 16 % 256
    ∷ bits / 2 ^ 8 % 256
    ∷ bits % 256
    ∷ []
