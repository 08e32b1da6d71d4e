-- ===== src/Mediapackage.antt =====
-- internal/mediapackage: the archive's rows, the writes to them, and their refresh of the projection.
pub mod Metadata
pub mod Write
pub mod Materialise
pub mod Manifest
pub mod Tags
pub mod Resolved
pub mod Loaded
pub mod Reloaded
pub mod Backfill
pub mod OnWay
pub mod Walked
pub mod Refresh
pub mod Edits
pub mod SeriesWrites
pub mod Recorded
pub mod Keys
pub mod Runs
pub mod Moves
pub mod Deleted
mod Tests
mod LoadTests
mod WalkTests
