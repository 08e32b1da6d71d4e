-- ===== src/Definitions.antt =====
-- internal/definitions: workflow definitions, written as files and executed from the database.
pub mod Parse
pub mod Registry
pub mod Loader
pub mod Applied
pub mod Boot
pub mod Restored
mod Tests
