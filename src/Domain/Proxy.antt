-- ===== src/Domain/Proxy.antt =====
-- internal/domain/stream.go: the handshakes of a proxy in front of the client's bytes.
pub mod Socks
pub mod Header
pub mod Bounds
pub mod Stable
pub mod Authority
mod Tests
