-- ===== src/Crypto/Sha1.antt =====
-- src/crypto/crypto.cpp: SHA-1 (FIPS 180-4).
use Prim.Native.Nat.{bit_and, bit_or, bit_xor}
use stice.Base.{
  ℕ, zero, suc, ◌+◌, ◌-◌, ◌/◌, ◌%◌, ◌^◌, List, [], ◌∷◌, ◌++◌, get_or, ltb, if◌then◌else◌, drop,
}
use stice.Bytes.{read_u32_be}
use stice.Crypto.Digest.{Ctx, update, finish, length_bytes_be}
use stice.Crypto.Word.{rotl32, complement, ◌+32◌}

pub record Sha1Words : Type 0 where
  pub a : ℕ
  pub b : ℕ
  pub c : ℕ
  pub d : ℕ
  pub e : ℕ

unfoldable pub sha1_init : Ctx Sha1Words
sha1_init = record {
  h = record { a = 0x67452301; b = 0xefcdab89; c = 0x98badcfe; d = 0x10325476; e = 0xc3d2e1f0 };
  len = 0;
  buf = [];
}

-- The first 16 words of the schedule, `p[i * 4] << 24 | ...`.
unfoldable pub words_be : ℕ → List ℕ → List ℕ
words_be zero p = []
words_be (suc n) p = read_u32_be p ∷ words_be n (drop 4 p)

-- `w[i]` for n more values of i.
unfoldable sha1_extend : ℕ → ℕ → List ℕ → List ℕ
sha1_extend zero i w = w
sha1_extend (suc n) i w = sha1_extend n (i + 1) (
    w
    ++ (rotl32
          (bit_xor
            (bit_xor (bit_xor (get_or w (i - 3) 0) (get_or w (i - 8) 0)) (get_or w (i - 14) 0))
            (get_or w (i - 16) 0))
          1
        ∷ []))

-- `f` and `k` of round i.
unfoldable sha1_mix : ℕ → Sha1Words → ℕ × ℕ
sha1_mix i s =
    if ltb i 20
    then (bit_or (bit_and s.b s.c) (bit_and (complement s.b) s.d), 0x5a827999)
    else if ltb i 40
    then (bit_xor (bit_xor s.b s.c) s.d, 0x6ed9eba1)
    else if ltb i 60
    then (bit_or (bit_or (bit_and s.b s.c) (bit_and s.b s.d)) (bit_and s.c s.d), 0x8f1bbcdc)
    else (bit_xor (bit_xor s.b s.c) s.d, 0xca62c1d6)

unfoldable sha1_round : List ℕ → ℕ → Sha1Words → Sha1Words
unfolding sha1_mix
sha1_round w i s =
    let (f, k) = sha1_mix i s in
    record {
      a = rotl32 s.a 5 +32 f +32 s.e +32 k +32 get_or w i 0;
      b = s.a;
      c = rotl32 s.b 30;
      d = s.c;
      e = s.d;
    }

unfoldable sha1_rounds : List ℕ → ℕ → ℕ → Sha1Words → Sha1Words
unfolding sha1_round
sha1_rounds w zero i s = s
sha1_rounds w (suc n) i s = sha1_rounds w n (i + 1) (sha1_round w i s)

unfoldable pub sha1_block : Sha1Words → List ℕ → Sha1Words
unfolding words_be sha1_extend sha1_rounds rotl32 read_u32_be
sha1_block h p =
    let s = sha1_rounds (sha1_extend 64 16 (words_be 16 p)) 80 0 h in
    record { a = h.a +32 s.a; b = h.b +32 s.b; c = h.c +32 s.c; d = h.d +32 s.d; e = h.e +32 s.e }

unfoldable pub word_bytes_be : ℕ → List ℕ
word_bytes_be v = v / 2 ^ 24 % 256 ∷ v / 2 ^ 16 % 256 ∷ v / 2 ^ 8 % 256 ∷ v % 256 ∷ []

unfoldable pub sha1_update : Ctx Sha1Words → List ℕ → Ctx Sha1Words
sha1_update c bytes = update sha1_block c bytes

unfoldable pub sha1_final : Ctx Sha1Words → List ℕ
unfolding word_bytes_be
sha1_final c =
    let w = (finish sha1_block length_bytes_be c).h in
    word_bytes_be w.a
    ++ (word_bytes_be w.b ++ (word_bytes_be w.c ++ (word_bytes_be w.d ++ word_bytes_be w.e)))

unfoldable pub sha1 : List ℕ → List ℕ
sha1 bytes = sha1_final (sha1_update sha1_init bytes)
