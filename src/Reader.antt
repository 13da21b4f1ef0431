-- ===== src/Reader.antt =====
-- The guard around a caller's reader of mediaio-ffmpeg/src/reader_guard.rs.
pub mod Guard
pub mod Meter
pub mod Budget
mod Tests
