-- ===== src/Timeline.antt =====
-- The timeline document of the mediaio-timeline crate: its data, its judge, its layout.
pub mod Time
pub mod Data
pub mod Refusal
pub mod Checks
pub mod Validate
pub mod Placed
pub mod Identity
pub mod Accepted
pub mod Valid
pub mod Layout
pub mod Contiguous
mod Tests
pub mod Diff
pub mod Clash
pub mod Unchanged
pub mod Reference
pub mod Matched
