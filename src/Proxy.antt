-- ===== src/Proxy.antt =====
-- The egress proxy, crates/silo-proxy.
pub mod IpGuard
pub mod Allowlist
pub mod Outside
pub mod Credentials
pub mod Upstream
pub mod Target
pub mod Serve
pub mod Dns
mod Examples
