-- ===== src/Serve.antt =====
-- internal/serve: delivery of element bytes by reference.
pub mod Authz
pub mod Range
pub mod Bounds
pub mod Empty
pub mod Element
pub mod Delivery
pub mod Bytes
pub mod Revalidation
pub mod Listing
mod Tests
