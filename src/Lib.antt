-- ===== src/Lib.antt =====
-- SwiftRemit: the client library of the remittance contract (`sdk`) and the service beside it
-- (`backend`), and the server of its public interface (`api`).
--
-- The program. The Soroban contract of the repository keeps remittances; it is written in Rust and is
-- not part of this library. `sdk/src` is the TypeScript client: it calls the contract, turns the
-- contract's error codes into typed errors, retries calls that fail for a passing reason, and carries
-- an in-memory stand-in of the contract for tests. `backend/src` is a service on PostgreSQL: it follows
-- the transactions of anchors, keeps what the anchors say of the identity of users (KYC), lets a
-- request to transfer pass only for users whose KYC allows it, delivers webhooks, reads exchange
-- rates from two providers, rates the assets of issuers, and has a second administrator confirm what
-- is risky. The handler of the anchors' webhooks checks who sent a request and calls the state manager
-- and the KYC service; the guard of transfers reads the rows that the anchors' records have left.
-- `api/src` lists remittances page by page.
--
-- What models what.
-- - Prelude: shared types, maps and lists of JavaScript (`Prelude.Dict`, `Prelude.Lists`), texts
--   (`Prelude.Strings`), signed numbers (`Prelude.Int`), and methods that change a state and may throw
--   (`Prelude.Result`).
-- - Sdk.Codes, Sdk.Errors: `sdk/src/errors.ts`. `ErrorCode`, `ERROR_MESSAGES`, `SwiftRemitError` and
--   `parseContractError` with its four regular expressions, on texts of code units.
-- - Sdk.Retry: `sdk/src/retry.ts`. `isTransientError`, `withRetry`, `withRetryPolicy`; the function that
--   is retried is a function of the number of its call.
-- - Sdk.Mock: `sdk/src/testing/mock-client.ts`. The fields of `SwiftRemitMockClient` are a record, its
--   methods functions on it: `Sdk.Mock.Types` (state and private helpers), `Sdk.Mock.Reads`,
--   `Sdk.Mock.Writes`. `Sdk.Mock.Ledger` is the abstract ledger, a step relation, that the methods
--   refine; `Sdk.Mock.Ops` has the calls of the writing methods as data, and apart from them those of the
--   five methods that seed a client; the other modules are proofs.
-- - Backend.Transactions: `backend/src/transaction-state.ts`. The statements that are sent to the
--   database are functions on the two tables (Backend.Transactions.Rows); a connection (`Session`) has the tables as others see them
--   and, from BEGIN to COMMIT or ROLLBACK, a copy of its own. Each statement, the connection itself and the
--   answer to COMMIT can fail.
-- - Backend.Kyc: `backend/src/kyc-upsert-service.ts`, with `Backend.Kyc.Guard` for
--   `backend/src/transfer-guard.ts`.
-- - Backend.Webhooks: `Backend.Webhooks.Store` is the store in memory of
--   `backend/src/webhooks/store.ts`, `Backend.Webhooks.Dispatcher` is
--   `backend/src/webhooks/dispatcher.ts`, the other modules are proofs.
-- - Backend.Fx: `FailoverFxService` of `backend/src/fx-provider.ts`.
-- - Backend.Confirmation: `AdminConfirmationService` of `backend/src/admin-confirmation.ts`.
-- - Backend.Verifier: `AssetVerifier` of `backend/src/verifier.ts`; its four checks are in
--   `Backend.Verifier.Checks`.
-- - Backend.AnchorWebhooks: `handleWebhook` of `backend/src/webhook-handler.ts` with
--   `backend/src/webhook-verifier.ts` and `backend/src/webhook-logger.ts`; `Backend.AnchorWebhooks.Routes` has
--   the handlers of deposits, withdrawals and KYC updates, `Backend.AnchorWebhooks.Disputes` those of
--   disputes, over a table whose status is a text.
-- - Backend.AgentKyc: `backend/src/agent-kyc-service.ts` and what it calls of `backend/src/database.ts`.
-- - Backend.Sep24: the polling and the webhook notification of `backend/src/sep24-service.ts`, with its
--   statements in `backend/src/database.ts` (Backend.Sep24.Rows).
-- - Api.Remittances: `PostgresRemittanceStore` of `api/src/db/remittanceStore.ts`, with its rows in
--   Api.Remittances.Rows. A SELECT is a filter of the table in the order of its ORDER BY.
-- - Api.Cursor: `api/src/services/cursor-pagination.ts`.
--
-- How the code is read. A `bigint` is an integer; a quotient of a `bigint` is cut towards zero. Times,
-- identifiers and basis points are natural numbers. Quotients that the code computes in floating point
-- and then rounds are exact quotients, rounded half up. A `Map` keeps its entries in the order of their
-- first insertion. The clock is an argument of each call that reads it. A call of an asynchronous
-- method of the mock client runs to its end before the next begins, since no method waits for anything
-- in between. What a database refuses, and what a call to another service answers, are parameters,
-- where the module of a component does not say that its statements are taken to succeed.
--
-- Loops. `withRetry` runs on fuel of `retries + 1` rounds, as many as it can make; a
-- client that asks for all pages needs one page for each row of the table and one more; `queryTransactionStatus` makes three attempts; every other
-- loop of the code is a recursion on a list or on the number of attempts that are left.
--
-- Not modelled: the contract itself and the generated bindings; the client's calls of Soroban
-- (`sdk/src/client.ts`), which build and submit transactions of a third-party library; the routes of
-- the API server, which parse requests around its stores; the handlers of limits, remittances and SEP-24
-- in the webhooks of anchors; the rest of the backend; the user interfaces; the examples with their vendored packages.
pub mod Prelude
pub mod Sdk
pub mod Backend
pub mod Api
