-- ===== src/Crypto/Hmac/Laws.antt =====
-- HMAC as RFC 2104 states it: the code hashes the pads and the text in two updates each.
use Prim.Native.Nat.{bit_xor}
use stice.Base.{
  ℕ, ◌<◌, ◌≡◌, refl, ap, List, ◌++◌, map, arith, length, All, ◌-◌, ◌≤◌, leb, leb→le, leb→gt,
  replicate, length-replicate, length-append, Bool-cases, inl, inr,
}
use stice.Bytes.{IsByte}
use stice.Crypto.Digest.{Ctx, update}
use stice.Crypto.Digest.Chunks.{update-update}
use stice.Crypto.Sha1.{Sha1Words, sha1_block, sha1_init, sha1_update, sha1_final, sha1}
use stice.Crypto.Sha256.{sha256_block, sha256_init, sha256_update, sha256_final, sha256}
use stice.Crypto.Hmac.{hmac_key, hmac_impl, hmac_sha1, hmac_sha256}

-- H((k0 xor opad) ++ H((k0 xor ipad) ++ msg)), with k0 the key as a block.
abbrev pub rfc2104 : (List ℕ → List ℕ) → List ℕ → List ℕ → List ℕ
rfc2104 hash k0 msg =
    hash (map (λ (b : ℕ). bit_xor b 0x5c) k0 ++ hash (map (λ (b : ℕ). bit_xor b 0x36) k0 ++ msg))

-- The key as a block of 64 bytes: the key itself, or its digest where it is longer than a block,
-- with zeros behind.
pub record IsKeyBlock (hash : List ℕ → List ℕ) (key k0 : List ℕ) : Type 0 where
  pub size : length k0 ≡ 64
  pub whole : length key ≤ 64 → (n : ℕ) × (k0 ≡ key ++ replicate n 0)
  pub hashed : 64 < length key → (n : ℕ) × (k0 ≡ hash key ++ replicate n 0)

length-fill : (xs : List ℕ) → length xs ≤ 64 → length (xs ++ replicate (64 - length xs) 0) ≡ 64
length-fill xs h = omega (
  arith,
  length-append xs (replicate (64 - length xs) 0),
  length-replicate {A = ℕ} (64 - length xs) 0,
)

module _ {H : Type 0} (block : H → List ℕ → H) (final : Ctx H → List ℕ) (init : Ctx H)
    (size : (c : Ctx H) → length (final c) ≤ 64) where
  hmac_key-IsKeyBlock :
      (key : List ℕ)
      → IsKeyBlock
          (λ (bytes : List ℕ). final (update block init bytes))
          key
          (hmac_key init (update block) final key)
  unfolding hmac_key
  hmac_key-IsKeyBlock key = elim (Bool-cases (leb (length key) 64)) [
    | inl e ↦ rw e (record {
      size = length-fill key (leb→le (length key) 64 e);
      whole = λ h. (64 - length key, refl);
      hashed = λ h. absurd (omega (arith, leb→le (length key) 64 e, h));
    })
    | inr e ↦
        let digest = final (update block init key) in
        rw e (record {
          size = length-fill digest (size (update block init key));
          whole = λ h. absurd (omega (arith, leb→gt (length key) 64 e, h));
          hashed = λ h. (64 - length digest, refl);
        })
  ]

  hmac_impl-rfc2104 :
      (key msg : List ℕ)
      → length init.buf < 64
      → (k0 : List ℕ) × IsKeyBlock (λ (bytes : List ℕ). final (update block init bytes)) key k0
        × (hmac_impl init (update block) final key msg
            ≡ rfc2104 (λ (bytes : List ℕ). final (update block init bytes)) k0 msg)
  unfolding hmac_impl
  hmac_impl-rfc2104 key msg lt =
      let k0 = hmac_key init (update block) final key in
      (
        k0,
        hmac_key-IsKeyBlock key,
        rw (update-update block init (map (λ (b : ℕ). bit_xor b 0x36) k0) msg lt)
            (ap final (update-update block init (map (λ (b : ℕ). bit_xor b 0x5c) k0) _ lt)),
      )

-- `hmacSha1` is HMAC over `sha1`, for every key and text: with the key as a block of 64 bytes, filled
-- up with zeros, and a key longer than a block hashed before.
pub hmac_sha1-rfc2104 :
    (key msg : List ℕ)
    → (k0 : List ℕ) × IsKeyBlock sha1 key k0 × (hmac_sha1 key msg ≡ rfc2104 sha1 k0 msg)
unfolding hmac_sha1 sha1 sha1_update sha1_init sha1_final
hmac_sha1-rfc2104 key msg =
    hmac_impl-rfc2104 sha1_block sha1_final sha1_init (λ c. omega arith) key msg (omega arith)

-- `hmacSha256` is HMAC over `sha256`, for every key and text.
pub hmac_sha256-rfc2104 :
    (key msg : List ℕ)
    → (k0 : List ℕ) × IsKeyBlock sha256 key k0 × (hmac_sha256 key msg ≡ rfc2104 sha256 k0 msg)
unfolding hmac_sha256 sha256 sha256_update sha256_init sha256_final
hmac_sha256-rfc2104 key msg =
    hmac_impl-rfc2104 sha256_block sha256_final sha256_init (λ c. omega arith) key msg (omega arith)

pub length-hmac_sha1 : (key msg : List ℕ) → length (hmac_sha1 key msg) ≡ 20
unfolding hmac_sha1 hmac_impl sha1_final
length-hmac_sha1 key msg = refl

sha1_final-bytes : (c : Ctx Sha1Words) → All IsByte (sha1_final c)
unfolding sha1_final
sha1_final-bytes c = omega arith

pub hmac_sha1-bytes : (key msg : List ℕ) → All IsByte (hmac_sha1 key msg)
unfolding hmac_sha1 hmac_impl
hmac_sha1-bytes key msg = sha1_final-bytes _
