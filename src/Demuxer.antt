-- ===== src/Demuxer.antt =====
-- The demux session of mediadecode-ffmpeg/src/demuxer.rs, which feeds the measurement of its walk.
pub mod Session
pub mod Turns
pub mod Lossless
pub mod Run
pub mod Seek
pub mod Panic
mod Tests
