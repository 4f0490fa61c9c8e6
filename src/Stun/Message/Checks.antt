-- ===== src/Stun/Message/Checks.antt =====
-- `checkFingerprint` and `checkIntegrity` on packets.
pub mod Scan
pub mod Accept
pub mod Encoded
