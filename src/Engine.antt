-- ===== src/Engine.antt =====
-- The durable workflow engine, internal/engine: its tables, the worker-side task client, the
-- orchestrator, the inline runner's task lifecycle and the execution-class table.
pub mod Store
pub mod Class
pub mod Client
pub mod Statements
mod Rows
mod Guarded
mod Insertion
pub mod Frame
pub mod Progress
pub mod Races
pub mod Sessions
pub mod Atomic
pub mod Invariants
pub mod Assignment
pub mod Served
pub mod Provisioned
pub mod Pass
pub mod Attempts
pub mod Dispatch
mod Tests
pub mod Run
pub mod Orchestrator
pub mod Lifecycle
