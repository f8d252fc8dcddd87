-- ===== src/Domain/Ja4.antt =====
-- internal/domain/ja4.go: the JA4 fingerprint of a ClientHello.
pub mod Fingerprint
pub mod Order
