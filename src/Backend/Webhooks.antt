-- ===== src/Backend/Webhooks.antt =====
-- The webhooks of the backend: `backend/src/webhooks/store.ts` and `backend/src/webhooks/dispatcher.ts`.
pub mod Store
pub mod Dispatcher
pub mod Outcomes
pub mod Attempts
pub mod Dispatches
mod Tests
