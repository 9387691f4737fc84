-- ===== src/Intercept.antt =====
-- pkg/intercept: what turns local application traffic into dials of services.
pub mod Vip
pub mod Dns
pub mod Tproxy
pub mod Explicit
