-- ===== src/Sdk/Mock.antt =====
-- `SwiftRemitMockClient` of `sdk/src/testing/mock-client.ts`: a contract in memory. `Types` has its
-- state, `Reads` and `Writes` its methods.
pub mod Types
pub mod Reads
pub mod Writes
pub mod Ledger
pub mod Ops
pub mod Effects
pub mod Histories
pub mod Lifecycle
pub mod Atomic
pub mod Fees
pub mod Agents
pub mod Reputation
