-- ===== src/Agent.antt =====
-- cmd/outrelay-agent/main.go: the agent's start and its consumer side.
pub mod Startup
pub mod Consumer
pub mod Promoting
pub mod Tls
pub mod Main
