-- ===== src/Crypto.antt =====
-- src/crypto/crypto.cpp: the hash functions, HMAC, the CRC and the long-term key.
pub mod Digest
pub mod Word
pub mod Md5
pub mod Sha1
pub mod Sha256
pub mod Hmac
pub mod Crc32
mod Tests
