-- ===== src/Quic.antt =====
-- internal/quicinitial/initial.go: the client's Initial packets of QUIC.
pub mod Wire
pub mod Crypto
pub mod Frames
pub mod Keys
pub mod Tracker
pub mod Pieces
pub mod Pull
pub mod Prefix
pub mod Complete
pub mod Safety
pub mod Number
pub mod Once
mod Tests
pub mod Witnesses
