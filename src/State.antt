-- ===== src/State.antt =====
-- The shared decoder state of the WebCodecs adapter (mediadecode-webcodecs/src/state.rs).
pub mod SortedVec
pub mod Search
pub mod Inner
pub mod Shared
pub mod Rounds
pub mod Order
pub mod Epochs
pub mod Arrival
pub mod Copy
pub mod CopyCases
pub mod Trace
pub mod Good
pub mod CopyKeeps
pub mod EventsKeep
pub mod Delivery
pub mod Closing
pub mod InputBytes
pub mod Admission
pub mod Counters
pub mod Copies
mod Tests
