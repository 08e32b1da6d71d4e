-- ===== src/Lti.antt =====
-- internal/lti: the tool half of an LTI launch, from login to session.
pub mod Registry
pub mod Store
pub mod Rows
pub mod Launch
pub mod Login
pub mod Stages
pub mod Message
pub mod Checked
pub mod Accepted
pub mod Single
pub mod Replay
pub mod Lasting
pub mod Session
pub mod Entry
pub mod Access
mod Tests
mod AccessTests
