-- ===== src/Crypto/Sha256.antt =====
-- src/crypto/crypto.cpp: SHA-256 (FIPS 180-4).
use Prim.Native.Nat.{bit_and, bit_xor}
use stice.Base.{ℕ, zero, suc, ◌+◌, ◌-◌, ◌/◌, ◌^◌, List, [], ◌∷◌, ◌++◌, get_or}
use stice.Bytes.{read_u32_be}
use stice.Crypto.Digest.{Ctx, update, finish, length_bytes_be}
use stice.Crypto.Word.{rotr32, complement, ◌+32◌}
use stice.Crypto.Sha1.{words_be, word_bytes_be}

pub record Sha256Words : Type 0 where
  pub a : ℕ
  pub b : ℕ
  pub c : ℕ
  pub d : ℕ
  pub e : ℕ
  pub f : ℕ
  pub g : ℕ
  pub h : ℕ

abbrev pub sha256_k : List ℕ
sha256_k =
    0x428a2f98 ∷ 0x71374491 ∷ 0xb5c0fbcf ∷ 0xe9b5dba5 ∷ 0x3956c25b ∷ 0x59f111f1 ∷ 0x923f82a4
    ∷ 0xab1c5ed5 ∷ 0xd807aa98 ∷ 0x12835b01 ∷ 0x243185be ∷ 0x550c7dc3 ∷ 0x72be5d74 ∷ 0x80deb1fe
    ∷ 0x9bdc06a7 ∷ 0xc19bf174 ∷ 0xe49b69c1 ∷ 0xefbe4786 ∷ 0x0fc19dc6 ∷ 0x240ca1cc ∷ 0x2de92c6f
    ∷ 0x4a7484aa ∷ 0x5cb0a9dc ∷ 0x76f988da ∷ 0x983e5152 ∷ 0xa831c66d ∷ 0xb00327c8 ∷ 0xbf597fc7
    ∷ 0xc6e00bf3 ∷ 0xd5a79147 ∷ 0x06ca6351 ∷ 0x14292967 ∷ 0x27b70a85 ∷ 0x2e1b2138 ∷ 0x4d2c6dfc
    ∷ 0x53380d13 ∷ 0x650a7354 ∷ 0x766a0abb ∷ 0x81c2c92e ∷ 0x92722c85 ∷ 0xa2bfe8a1 ∷ 0xa81a664b
    ∷ 0xc24b8b70 ∷ 0xc76c51a3 ∷ 0xd192e819 ∷ 0xd6990624 ∷ 0xf40e3585 ∷ 0x106aa070 ∷ 0x19a4c116
    ∷ 0x1e376c08 ∷ 0x2748774c ∷ 0x34b0bcb5 ∷ 0x391c0cb3 ∷ 0x4ed8aa4a ∷ 0x5b9cca4f ∷ 0x682e6ff3
    ∷ 0x748f82ee ∷ 0x78a5636f ∷ 0x84c87814 ∷ 0x8cc70208 ∷ 0x90befffa ∷ 0xa4506ceb ∷ 0xbef9a3f7
    ∷ 0xc67178f2 ∷ []

unfoldable pub sha256_init : Ctx Sha256Words
sha256_init = record {
  h = record {
    a = 0x6a09e667;
    b = 0xbb67ae85;
    c = 0x3c6ef372;
    d = 0xa54ff53a;
    e = 0x510e527f;
    f = 0x9b05688c;
    g = 0x1f83d9ab;
    h = 0x5be0cd19;
  };
  len = 0;
  buf = [];
}

-- `w[i]` for n more values of i.
unfoldable sha256_extend : ℕ → ℕ → List ℕ → List ℕ
sha256_extend zero i w = w
sha256_extend (suc n) i w =
    let x = get_or w (i - 15) 0 in
    let y = get_or w (i - 2) 0 in
    let s0 = bit_xor (bit_xor (rotr32 x 7) (rotr32 x 18)) (x / 2 ^ 3) in
    let s1 = bit_xor (bit_xor (rotr32 y 17) (rotr32 y 19)) (y / 2 ^ 10) in
    sha256_extend n (i + 1) (w ++ ((get_or w (i - 16) 0 +32 s0 +32 get_or w (i - 7) 0 +32 s1) ∷ []))

unfoldable sha256_round : List ℕ → ℕ → Sha256Words → Sha256Words
sha256_round w i s =
    let s1 = bit_xor (bit_xor (rotr32 s.e 6) (rotr32 s.e 11)) (rotr32 s.e 25) in
    let ch = bit_xor (bit_and s.e s.f) (bit_and (complement s.e) s.g) in
    let t1 = s.h +32 s1 +32 ch +32 get_or sha256_k i 0 +32 get_or w i 0 in
    let s0 = bit_xor (bit_xor (rotr32 s.a 2) (rotr32 s.a 13)) (rotr32 s.a 22) in
    let maj = bit_xor (bit_xor (bit_and s.a s.b) (bit_and s.a s.c)) (bit_and s.b s.c) in
    let t2 = s0 +32 maj in
    record { a = t1 +32 t2; b = s.a; c = s.b; d = s.c; e = s.d +32 t1; f = s.e; g = s.f; h = s.g }

unfoldable sha256_rounds : List ℕ → ℕ → ℕ → Sha256Words → Sha256Words
unfolding sha256_round
sha256_rounds w zero i s = s
sha256_rounds w (suc n) i s = sha256_rounds w n (i + 1) (sha256_round w i s)

unfoldable pub sha256_block : Sha256Words → List ℕ → Sha256Words
unfolding sha256_extend sha256_rounds rotr32 words_be read_u32_be
sha256_block h p =
    let s = sha256_rounds (sha256_extend 48 16 (words_be 16 p)) 64 0 h in
    record {
      a = h.a +32 s.a;
      b = h.b +32 s.b;
      c = h.c +32 s.c;
      d = h.d +32 s.d;
      e = h.e +32 s.e;
      f = h.f +32 s.f;
      g = h.g +32 s.g;
      h = h.h +32 s.h;
    }

unfoldable pub sha256_update : Ctx Sha256Words → List ℕ → Ctx Sha256Words
sha256_update c bytes = update sha256_block c bytes

unfoldable pub sha256_final : Ctx Sha256Words → List ℕ
unfolding word_bytes_be
sha256_final c =
    let w = (finish sha256_block length_bytes_be c).h in
    word_bytes_be w.a
    ++ (word_bytes_be w.b
        ++ (word_bytes_be w.c
            ++ (word_bytes_be w.d
                ++ (word_bytes_be w.e
                    ++ (word_bytes_be w.f ++ (word_bytes_be w.g ++ word_bytes_be w.h))))))

unfoldable pub sha256 : List ℕ → List ℕ
sha256 bytes = sha256_final (sha256_update sha256_init bytes)
