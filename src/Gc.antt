-- ===== src/Gc.antt =====
-- internal/gc: the mark-sweep collection of unreferenced objects.
pub mod Sweep
pub mod Marks
pub mod Safety
pub mod Grace
pub mod Outcome
mod Tests
