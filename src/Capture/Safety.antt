-- ===== src/Capture/Safety.antt =====
-- internal/capture/packet.go: the bounds of decoding.
pub mod Icmp
pub mod Transport
pub mod Network
