-- ===== src/Crypto/Hmac.antt =====
-- src/crypto/crypto.cpp: HMAC (RFC 2104) over a block of 64 bytes, and the long-term key.
pub mod Laws
use Prim.Native.Nat.{bit_xor}
use stice.Base.{ℕ, ◌-◌, List, [], ◌∷◌, ◌++◌, map, length, leb, replicate, if◌then◌else◌}
use stice.Crypto.Digest.{Ctx}
use stice.Crypto.Md5.{md5}
use stice.Crypto.Sha1.{Sha1Words, sha1_init, sha1_update, sha1_final}
use stice.Crypto.Sha256.{Sha256Words, sha256_init, sha256_update, sha256_final}

module _ {H : Type 0} (init : Ctx H) (update : Ctx H → List ℕ → Ctx H)
    (final : Ctx H → List ℕ) where
  -- `k0`: the key, or its digest where it is longer than a block, filled up with zeros.
  unfoldable pub hmac_key : List ℕ → List ℕ
  hmac_key key =
      let short = if leb (length key) 64 then key else final (update init key) in
      short ++ replicate (64 - length short) 0

  unfoldable pub hmac_impl : List ℕ → List ℕ → List ℕ
  hmac_impl key msg =
      let k0 = hmac_key key in
      let ipad = map (λ (b : ℕ). bit_xor b 0x36) k0 in
      let opad = map (λ (b : ℕ). bit_xor b 0x5c) k0 in
      let inner = final (update (update init ipad) msg) in final (update (update init opad) inner)

unfoldable pub hmac_sha1 : List ℕ → List ℕ → List ℕ
hmac_sha1 key msg = hmac_impl sha1_init sha1_update sha1_final key msg

unfoldable pub hmac_sha256 : List ℕ → List ℕ → List ℕ
hmac_sha256 key msg = hmac_impl sha256_init sha256_update sha256_final key msg

-- `md5(username + ":" + realm + ":" + password)`; a text is the list of its bytes.
unfoldable pub long_term_key : List ℕ → List ℕ → List ℕ → List ℕ
long_term_key username realm password = md5 (username ++ (b':' ∷ (realm ++ (b':' ∷ password))))
