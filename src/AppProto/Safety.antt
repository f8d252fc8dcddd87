-- ===== src/AppProto/Safety.antt =====
-- internal/appproto/detect.go: the bounds of what the detectors read.
pub mod Fields
pub mod TcpFields
pub mod Tcp
pub mod Udp
