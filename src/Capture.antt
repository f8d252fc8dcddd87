-- ===== src/Capture.antt =====
-- internal/capture/packet.go: what one captured frame says.
pub mod Packet
pub mod Quoted
pub mod Transport
pub mod Network
pub mod Safety
pub mod Frames
mod Tests
