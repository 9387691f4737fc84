-- ===== src/Session.antt =====
-- pkg/session: the agent's connection to the relay and the streams on it.
pub mod Stream
pub mod Wrapper
pub mod Waiters
pub mod Dialing
pub mod Resume
pub mod Registry
pub mod Forward
pub mod Bridge
pub mod Incoming
pub mod Opening
pub mod Reconnect
pub mod Promotion
pub mod Checkpoints
