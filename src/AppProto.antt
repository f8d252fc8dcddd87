-- ===== src/AppProto.antt =====
-- internal/appproto/detect.go: application protocols known by their first bytes.
pub mod Fields
pub mod Tcp
pub mod Udp
pub mod Safety
pub mod Direction
mod Tests
