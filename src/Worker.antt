-- ===== src/Worker.antt =====
-- internal/worker: the resident worker's task slots, and what its operations and those of internal/ops
-- complete with.
pub mod Fanout
pub mod Slots
pub mod Capacity
pub mod Inflight
pub mod Completions
pub mod Inline
pub mod Operations
mod InlineTests
pub mod Sound
pub mod Projected
pub mod Pinned
mod Tests
mod CompletionTests
