-- ===== src/Domain.antt =====
-- internal/domain: what a connection's bytes say about its destination.
pub mod Stream
pub mod Address
pub mod Hostname
pub mod Cursor
pub mod Tls
pub mod Ja4
pub mod Dns
pub mod Server
pub mod Quic
pub mod Proxy
mod Tests
