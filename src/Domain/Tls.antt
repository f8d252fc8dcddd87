-- ===== src/Domain/Tls.antt =====
-- internal/domain/tls.go: what a TLS ClientHello says, and the records that it comes in.
pub mod Hello
pub mod Printable
pub mod Records
pub mod Fragments
