-- ===== src/Acl.antt =====
-- internal/acl: the tables `acl_policy` and `acl_entry`, the write, the read-back and the one
-- authorization decision. A database error aborts the caller's transaction and is not modelled.
pub mod Policy
pub mod Decision
pub mod Storage
pub mod Apart
mod Tests
