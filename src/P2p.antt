-- ===== src/P2p.antt =====
-- pkg/p2p: the connectivity check, the promotion handshake and the watch over a direct connection.
pub mod Check
pub mod Promoter
pub mod Demoter
mod Tests
