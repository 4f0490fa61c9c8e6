-- ===== src/Stserver.antt =====
-- src/stserver/turn_server.cpp: relay ports, authentication, permissions and channels of the TURN server.
pub mod RelayPorts
pub mod Authenticate
pub mod Channels
mod Tests
