-- ===== src/Quic/Safety.antt =====
-- internal/quicinitial/initial.go: lemmas about any bytes at all.
pub mod Wire
pub mod Stream
pub mod Crypto
pub mod Frames
pub mod Keys
pub mod Tracker
