-- ===== src/Stun.antt =====
-- The STUN codec: include/stice/stun/message.hpp, src/stun/message.cpp and src/stun/attributes.cpp.
pub mod TypeField
pub mod Message
pub mod ErrorReason
pub mod Attributes
mod Tests
