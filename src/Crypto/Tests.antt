-- ===== src/Crypto/Tests.antt =====
-- Published test vectors, and the theorems of this part at concrete inputs.
use stice.Base.{ℕ, ◌/◌, length, ◌≡◌, refl, arith, List, [], ◌∷◌, ◌++◌}
use stice.Crypto.Digest.{
  absorb, absorb_all, refill, update, pad_zeros, finish, length_bytes_le, length_bytes_be,
}
use stice.Crypto.Md5.{md5, md5_init, md5_update, md5_final, md5_block}
use stice.Crypto.Sha1.{sha1, sha1_init, sha1_update, sha1_final, sha1_block}
use stice.Crypto.Sha256.{sha256, sha256_init, sha256_update, sha256_final, sha256_block}
use stice.Crypto.Hmac.{hmac_sha1}
use stice.Crypto.Digest.Chunks.{update-update}
use stice.Crypto.Digest.Padding.{padded, blocks, finish-blocks}
use stice.Crypto.Hmac.Laws.{rfc2104, IsKeyBlock, hmac_sha1-rfc2104}
use stice.Crypto.Crc32.Bitwise.{crc_bitwise, crc_loop-bitwise}
use mathlib.Core.List.{foldl}
use stice.Crypto.Crc32.{crc32, crc_loop, crc_table}

abbrev abc : List ℕ
abc = b'a' ∷ b'b' ∷ b'c' ∷ []

md5-abc :
    md5 abc
    ≡ 0x90 ∷ 0x01 ∷ 0x50 ∷ 0x98 ∷ 0x3c ∷ 0xd2 ∷ 0x4f ∷ 0xb0 ∷ 0xd6 ∷ 0x96 ∷ 0x3f ∷ 0x7d ∷ 0x28
      ∷ 0xe1 ∷ 0x7f ∷ 0x72 ∷ []
unfolding md5 md5_init md5_update md5_final md5_block absorb absorb_all refill update pad_zeros
    finish length_bytes_le
md5-abc = refl

sha1-abc :
    sha1 abc
    ≡ 0xa9 ∷ 0x99 ∷ 0x3e ∷ 0x36 ∷ 0x47 ∷ 0x06 ∷ 0x81 ∷ 0x6a ∷ 0xba ∷ 0x3e ∷ 0x25 ∷ 0x71 ∷ 0x78
      ∷ 0x50 ∷ 0xc2 ∷ 0x6c ∷ 0x9c ∷ 0xd0 ∷ 0xd8 ∷ 0x9d ∷ []
unfolding sha1 sha1_init sha1_update sha1_final sha1_block absorb absorb_all refill update pad_zeros
    finish length_bytes_be
sha1-abc = refl

sha256-abc :
    sha256 abc
    ≡ 0xba ∷ 0x78 ∷ 0x16 ∷ 0xbf ∷ 0x8f ∷ 0x01 ∷ 0xcf ∷ 0xea ∷ 0x41 ∷ 0x41 ∷ 0x40 ∷ 0xde ∷ 0x5d
      ∷ 0xae ∷ 0x22 ∷ 0x23 ∷ 0xb0 ∷ 0x03 ∷ 0x61 ∷ 0xa3 ∷ 0x96 ∷ 0x17 ∷ 0x7a ∷ 0x9c ∷ 0xb4 ∷ 0x10
      ∷ 0xff ∷ 0x61 ∷ 0xf2 ∷ 0x00 ∷ 0x15 ∷ 0xad ∷ []
unfolding sha256 sha256_init sha256_update sha256_final sha256_block absorb absorb_all refill update
    pad_zeros finish length_bytes_be
sha256-abc = refl

crc32_check : crc32 (b'1' ∷ b'2' ∷ b'3' ∷ b'4' ∷ b'5' ∷ b'6' ∷ b'7' ∷ b'8' ∷ b'9' ∷ []) ≡ 0xcbf43926
unfolding crc32 crc_loop crc_table
crc32_check = refl

sha1_init-fresh : sha1_init.buf ≡ []
unfolding sha1_init
sha1_init-fresh = refl

update-update_example :
    update sha1_block (update sha1_block sha1_init abc) (abc ++ abc)
    ≡ update sha1_block sha1_init (abc ++ (abc ++ abc))
unfolding sha1_init
update-update_example = update-update sha1_block sha1_init abc (abc ++ abc) (omega arith)

hmac_sha1-rfc2104_example :
    (k0 : List ℕ) × IsKeyBlock sha1 abc k0 × (hmac_sha1 abc abc ≡ rfc2104 sha1 k0 abc)
hmac_sha1-rfc2104_example = hmac_sha1-rfc2104 abc abc

crc_loop-bitwise_example : crc_loop 0xffff_ffff abc ≡ crc_bitwise 0xffff_ffff abc
crc_loop-bitwise_example = crc_loop-bitwise 0xffff_ffff abc (omega arith)

finish-blocks_example :
    (finish sha1_block length_bytes_be (update sha1_block sha1_init abc)).h
    ≡ foldl sha1_block sha1_init.h
        (blocks (length (padded length_bytes_be abc) / 64) (padded length_bytes_be abc))
unfolding sha1_init length_bytes_be
finish-blocks_example = finish-blocks sha1_block length_bytes_be sha1_init refl refl abc (λ n. refl)
