-- ===== src/Identity.antt =====
-- Who a request comes from: internal/lti/roles.go, internal/authn, and the claim checks of internal/jose.
pub mod Roles
pub mod Namespace
pub mod Claims
pub mod Hmac
pub mod Jws
pub mod Passed
pub mod Signed
pub mod Keys
pub mod Session
pub mod Resolve
pub mod Bounded
pub mod Oidc
pub mod Discovered
pub mod Asserted
pub mod Trusted
pub mod Sample
mod Tests
