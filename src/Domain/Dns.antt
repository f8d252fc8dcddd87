-- ===== src/Domain/Dns.antt =====
-- internal/domain/dns.go: names and addresses out of DNS messages, and the cache of recent answers.
pub mod Message
pub mod Safety
pub mod Cache
pub mod Bounds
mod Tests
