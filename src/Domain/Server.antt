-- ===== src/Domain/Server.antt =====
-- internal/domain/tls_server.go: what the start of a TLS server's reply says.
pub mod Der
pub mod Certificate
pub mod Names
pub mod Hello
pub mod Flight
pub mod Alert
pub mod Reading
pub mod Feeding
pub mod Reassembly
pub mod Delivery
pub mod AddServer
mod Tests
