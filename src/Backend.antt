-- ===== src/Backend.antt =====
-- The backend service (`backend/src`): the state machine of anchor transactions, the KYC records and
-- the guard they feed, the webhook store and dispatcher, the exchange-rate failover, the confirmation of
-- risky actions, the asset verifier, the webhooks of anchors, the KYC of agents, and
-- the polling of SEP-24 transactions.
pub mod Transactions
pub mod Kyc
pub mod Webhooks
pub mod Fx
pub mod Confirmation
pub mod Verifier
pub mod AnchorWebhooks
pub mod AgentKyc
pub mod Sep24
mod Tests
