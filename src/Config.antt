-- ===== src/Config.antt =====
-- internal/config: the variables of the environment and the report at boot.
pub mod Set
pub mod Reads
pub mod Report
