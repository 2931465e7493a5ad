-- ===== src/Sdk.antt =====
-- The TypeScript SDK (`sdk/src`): its errors, its retry loop and the client for tests.
pub mod Codes
pub mod Errors
pub mod Retry
pub mod Mock
mod Tests
