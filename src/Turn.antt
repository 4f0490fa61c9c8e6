-- ===== src/Turn.antt =====
-- src/turn: the framing of TURN, as datagrams and on a byte stream.
pub mod ChannelData
pub mod StunConn
mod Tests
