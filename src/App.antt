-- ===== src/App.antt =====
-- internal/app: what the terminal interface keeps.
pub mod Trend
pub mod History
mod Tests
