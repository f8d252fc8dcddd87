-- ===== src/Domain/Stream.antt =====
-- internal/domain/stream.go: the reassembly of one direction of a TCP connection.
pub mod State
pub mod Ops
pub mod Pick
pub mod Rounds
pub mod Accounting
pub mod Delivery
pub mod Panic
mod Tests
