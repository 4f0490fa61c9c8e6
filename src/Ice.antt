-- ===== src/Ice.antt =====
-- src/ice: candidates, their priorities and their pairs.
pub mod Candidate
pub mod CandidatePair
pub mod AddrRewrite
pub mod Agent
mod Tests
