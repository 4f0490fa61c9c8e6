-- ===== src/Crypto/Md5.antt =====
-- src/crypto/crypto.cpp: MD5 (RFC 1321).
use Prim.Native.Nat.{bit_and, bit_or, bit_xor}
use stice.Base.{
  ℕ, zero, suc, ◌+◌, ◌*◌, ◌/◌, ◌%◌, ◌^◌, List, [], ◌∷◌, ◌++◌, get_or, ltb, if◌then◌else◌, drop,
}
use stice.Bytes.{byte_at}
use stice.Crypto.Digest.{Ctx, update, finish, length_bytes_le}
use stice.Crypto.Word.{rotl32, complement, ◌+32◌}

pub record Md5Words : Type 0 where
  pub a : ℕ
  pub b : ℕ
  pub c : ℕ
  pub d : ℕ

unfoldable pub md5_init : Ctx Md5Words
md5_init = record {
  h = record { a = 0x67452301; b = 0xefcdab89; c = 0x98badcfe; d = 0x10325476 };
  len = 0;
  buf = [];
}

abbrev pub md5_k : List ℕ
md5_k =
    0xd76aa478 ∷ 0xe8c7b756 ∷ 0x242070db ∷ 0xc1bdceee ∷ 0xf57c0faf ∷ 0x4787c62a ∷ 0xa8304613
    ∷ 0xfd469501 ∷ 0x698098d8 ∷ 0x8b44f7af ∷ 0xffff5bb1 ∷ 0x895cd7be ∷ 0x6b901122 ∷ 0xfd987193
    ∷ 0xa679438e ∷ 0x49b40821 ∷ 0xf61e2562 ∷ 0xc040b340 ∷ 0x265e5a51 ∷ 0xe9b6c7aa ∷ 0xd62f105d
    ∷ 0x02441453 ∷ 0xd8a1e681 ∷ 0xe7d3fbc8 ∷ 0x21e1cde6 ∷ 0xc33707d6 ∷ 0xf4d50d87 ∷ 0x455a14ed
    ∷ 0xa9e3e905 ∷ 0xfcefa3f8 ∷ 0x676f02d9 ∷ 0x8d2a4c8a ∷ 0xfffa3942 ∷ 0x8771f681 ∷ 0x6d9d6122
    ∷ 0xfde5380c ∷ 0xa4beea44 ∷ 0x4bdecfa9 ∷ 0xf6bb4b60 ∷ 0xbebfbc70 ∷ 0x289b7ec6 ∷ 0xeaa127fa
    ∷ 0xd4ef3085 ∷ 0x04881d05 ∷ 0xd9d4d039 ∷ 0xe6db99e5 ∷ 0x1fa27cf8 ∷ 0xc4ac5665 ∷ 0xf4292244
    ∷ 0x432aff97 ∷ 0xab9423a7 ∷ 0xfc93a039 ∷ 0x655b59c3 ∷ 0x8f0ccc92 ∷ 0xffeff47d ∷ 0x85845dd1
    ∷ 0x6fa87e4f ∷ 0xfe2ce6e0 ∷ 0xa3014314 ∷ 0x4e0811a1 ∷ 0xf7537e82 ∷ 0xbd3af235 ∷ 0x2ad7d2bb
    ∷ 0xeb86d391 ∷ []

abbrev pub md5_s : List ℕ
md5_s =
    7 ∷ 12 ∷ 17 ∷ 22 ∷ 7 ∷ 12 ∷ 17 ∷ 22 ∷ 7 ∷ 12 ∷ 17 ∷ 22 ∷ 7 ∷ 12 ∷ 17 ∷ 22 ∷ 5 ∷ 9 ∷ 14 ∷ 20 ∷ 5
    ∷ 9 ∷ 14 ∷ 20 ∷ 5 ∷ 9 ∷ 14 ∷ 20 ∷ 5 ∷ 9 ∷ 14 ∷ 20 ∷ 4 ∷ 11 ∷ 16 ∷ 23 ∷ 4 ∷ 11 ∷ 16 ∷ 23 ∷ 4 ∷ 11
    ∷ 16 ∷ 23 ∷ 4 ∷ 11 ∷ 16 ∷ 23 ∷ 6 ∷ 10 ∷ 15 ∷ 21 ∷ 6 ∷ 10 ∷ 15 ∷ 21 ∷ 6 ∷ 10 ∷ 15 ∷ 21 ∷ 6 ∷ 10
    ∷ 15 ∷ 21 ∷ []

-- The 16 little-endian words of a block, from word i on.
unfoldable md5_words : ℕ → List ℕ → List ℕ
md5_words zero p = []
md5_words (suc n) p =
    bit_or (bit_or (bit_or (byte_at p 0) (byte_at p 1 * 2 ^ 8)) (byte_at p 2 * 2 ^ 16))
      (byte_at p 3 * 2 ^ 24)
    ∷ md5_words n (drop 4 p)

-- `f` and `g` of round i.
unfoldable md5_mix : ℕ → Md5Words → ℕ × ℕ
md5_mix i w =
    if ltb i 16
    then (bit_or (bit_and w.b w.c) (bit_and (complement w.b) w.d), i)
    else if ltb i 32
    then (bit_or (bit_and w.d w.b) (bit_and (complement w.d) w.c), (5 * i + 1) % 16)
    else if ltb i 48
    then (bit_xor (bit_xor w.b w.c) w.d, (3 * i + 5) % 16)
    else (bit_xor w.c (bit_or w.b (complement w.d)), 7 * i % 16)

unfoldable md5_round : List ℕ → ℕ → Md5Words → Md5Words
unfolding md5_mix
md5_round m i w =
    let (f, g) = md5_mix i w in
    record {
      a = w.d;
      b = w.b +32 rotl32 (w.a +32 f +32 get_or md5_k i 0 +32 get_or m g 0) (get_or md5_s i 0);
      c = w.b;
      d = w.c;
    }

-- The rounds from i on, n of them.
unfoldable md5_rounds : List ℕ → ℕ → ℕ → Md5Words → Md5Words
unfolding md5_round
md5_rounds m zero i w = w
md5_rounds m (suc n) i w = md5_rounds m n (i + 1) (md5_round m i w)

unfoldable pub md5_block : Md5Words → List ℕ → Md5Words
unfolding md5_words md5_rounds rotl32
md5_block h p =
    let w = md5_rounds (md5_words 16 p) 64 0 h in
    record { a = h.a +32 w.a; b = h.b +32 w.b; c = h.c +32 w.c; d = h.d +32 w.d }

unfoldable word_bytes_le : ℕ → List ℕ
word_bytes_le v = v % 256 ∷ v / 2 ^ 8 % 256 ∷ v / 2 ^ 16 % 256 ∷ v / 2 ^ 24 % 256 ∷ []

unfoldable pub md5_update : Ctx Md5Words → List ℕ → Ctx Md5Words
md5_update c bytes = update md5_block c bytes

unfoldable pub md5_final : Ctx Md5Words → List ℕ
unfolding word_bytes_le
md5_final c =
    let w = (finish md5_block length_bytes_le c).h in
    word_bytes_le w.a ++ (word_bytes_le w.b ++ (word_bytes_le w.c ++ word_bytes_le w.d))

unfoldable pub md5 : List ℕ → List ℕ
md5 bytes = md5_final (md5_update md5_init bytes)
