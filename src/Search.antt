-- ===== src/Search.antt =====
-- internal/search: the projection of events and series, and the queries over it.
pub mod Rows
pub mod Project
pub mod Current
pub mod Settled
pub mod Members
pub mod Keys
pub mod Agreement
pub mod AclWrites
pub mod Query
pub mod Display
pub mod Visibility
pub mod Listing
