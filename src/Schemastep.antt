-- ===== src/Schemastep.antt =====
-- internal/schemastep: the ledger-skipped runner of migration plans.
pub mod Plan
pub mod Regex
pub mod Split
pub mod Patterns
pub mod Classify
pub mod Statements
pub mod Checker
pub mod ServeRole
pub mod Steady
pub mod Ensured
pub mod Runner
pub mod Transaction
pub mod Once
pub mod Again
pub mod Rerun
pub mod Batches
pub mod Safety
mod Tests
