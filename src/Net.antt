-- ===== src/Net.antt =====
-- src/net: socket addresses.
pub mod Addr
