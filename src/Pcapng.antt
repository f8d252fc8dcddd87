-- ===== src/Pcapng.antt =====
-- internal/pcapng: recordings written and read back.
pub mod Writer
pub mod Reader
pub mod Options
pub mod Blocks
pub mod Written
pub mod RoundTrip
pub mod Limit
mod Tests
