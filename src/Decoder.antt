-- ===== src/Decoder.antt =====
-- The hardware video decoder of mediadecode-ffmpeg/src/decoder/mod.rs, which tries one backend after
-- another until one of them delivers a frame.
pub mod Libav
pub mod Phase
pub mod Footprint
pub mod Replay
pub mod Session
pub mod Calls
pub mod Promises
pub mod Feeding
pub mod Queue
pub mod Rescue
pub mod Verdict
pub mod Rounds
pub mod Preflight
pub mod Sending
pub mod Receiving
pub mod History
pub mod Run
pub mod Open
mod Tests
