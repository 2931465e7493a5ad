-- ===== src/Sdk/Codes.antt =====
-- `sdk/src/errors.ts`: the error codes of the contract, their numbers and messages.
use Prim.Native.String.{String}
use swift_remit.Prelude.{ℕ, List, [], ◌∷◌}

-- `enum ErrorCode`
pub data ErrorCode : Type 0 where
  already_initialized not_initialized invalid_amount invalid_fee_bps agent_not_registered :
      ErrorCode
  remittance_not_found invalid_status invalid_state_transition no_fees_to_withdraw : ErrorCode
  invalid_address settlement_expired duplicate_settlement contract_paused asset_not_found :
      ErrorCode
  user_blacklisted invalid_reputation_score kyc_not_approved suspicious_asset : ErrorCode
  anchor_transaction_failed unauthorized daily_send_limit_exceeded : ErrorCode
  token_already_whitelisted kyc_expired transaction_not_found rate_limit_exceeded : ErrorCode
  admin_already_exists admin_not_found cannot_remove_last_admin token_not_whitelisted : ErrorCode
  invalid_migration_hash migration_in_progress invalid_migration_batch cooldown_active : ErrorCode
  suspicious_activity action_blocked overflow net_settlement_validation_failed : ErrorCode
  escrow_not_found invalid_escrow_status settlement_counter_overflow invalid_batch_size : ErrorCode
  data_corruption index_out_of_bounds empty_collection key_not_found : ErrorCode
  string_conversion_failed invalid_symbol underflow idempotency_conflict invalid_proof : ErrorCode
  missing_proof invalid_oracle_address dispute_window_expired already_disputed : ErrorCode
  not_disputed already_paused not_paused timelock_active already_voted : ErrorCode
  invalid_timelock_duration invalid_quorum pause_record_not_found invalid_recipient_hash : ErrorCode
  missing_recipient_hash recipient_hash_mismatch recipient_hash_schema_mismatch : ErrorCode
  proposal_already_pending proposal_not_found invalid_proposal_state timelock_not_elapsed :
      ErrorCode
  already_admin insufficient_admins agent_already_registered : ErrorCode
  governance_already_initialized : ErrorCode

-- The number of a code.
unfoldable pub number : ErrorCode → ℕ
number already_initialized = 1
number not_initialized = 2
number invalid_amount = 3
number invalid_fee_bps = 4
number agent_not_registered = 5
number remittance_not_found = 6
number invalid_status = 7
number invalid_state_transition = 8
number no_fees_to_withdraw = 9
number invalid_address = 10
number settlement_expired = 11
number duplicate_settlement = 12
number contract_paused = 13
number asset_not_found = 14
number user_blacklisted = 15
number invalid_reputation_score = 16
number kyc_not_approved = 17
number suspicious_asset = 18
number anchor_transaction_failed = 19
number unauthorized = 20
number daily_send_limit_exceeded = 21
number token_already_whitelisted = 22
number kyc_expired = 23
number transaction_not_found = 24
number rate_limit_exceeded = 25
number admin_already_exists = 26
number admin_not_found = 27
number cannot_remove_last_admin = 28
number token_not_whitelisted = 29
number invalid_migration_hash = 30
number migration_in_progress = 31
number invalid_migration_batch = 32
number cooldown_active = 33
number suspicious_activity = 34
number action_blocked = 35
number overflow = 36
number net_settlement_validation_failed = 37
number escrow_not_found = 38
number invalid_escrow_status = 39
number settlement_counter_overflow = 40
number invalid_batch_size = 41
number data_corruption = 42
number index_out_of_bounds = 43
number empty_collection = 44
number key_not_found = 45
number string_conversion_failed = 46
number invalid_symbol = 47
number underflow = 48
number idempotency_conflict = 49
number invalid_proof = 50
number missing_proof = 51
number invalid_oracle_address = 52
number dispute_window_expired = 53
number already_disputed = 54
number not_disputed = 55
number already_paused = 56
number not_paused = 57
number timelock_active = 58
number already_voted = 59
number invalid_timelock_duration = 60
number invalid_quorum = 61
number pause_record_not_found = 62
number invalid_recipient_hash = 63
number missing_recipient_hash = 64
number recipient_hash_mismatch = 65
number recipient_hash_schema_mismatch = 66
number proposal_already_pending = 67
number proposal_not_found = 68
number invalid_proposal_state = 69
number timelock_not_elapsed = 70
number already_admin = 71
number insufficient_admins = 72
number agent_already_registered = 73
number governance_already_initialized = 74

-- `ERROR_MESSAGES`
unfoldable pub error_message : ErrorCode → String
error_message already_initialized = "Contract has already been initialized"
error_message not_initialized = "Contract has not been initialized yet"
error_message invalid_amount = "Amount must be greater than zero"
error_message invalid_fee_bps = "Fee must be between 0 and 10000 basis points"
error_message agent_not_registered = "Agent is not registered in the system"
error_message remittance_not_found = "Remittance not found"
error_message invalid_status = "Invalid remittance status for this operation"
error_message invalid_state_transition = "Invalid state transition attempted"
error_message no_fees_to_withdraw = "No fees available to withdraw"
error_message invalid_address = "Invalid address format or validation failed"
error_message settlement_expired = "Settlement window has expired"
error_message duplicate_settlement = "Settlement has already been executed"
error_message contract_paused = "Contract is paused"
error_message asset_not_found = "Asset verification record not found"
error_message user_blacklisted = "User is blacklisted and cannot perform transactions"
error_message invalid_reputation_score = "Reputation score must be between 0 and 100"
error_message kyc_not_approved = "User KYC is not approved"
error_message suspicious_asset = "Asset has been flagged as suspicious"
error_message anchor_transaction_failed = "Anchor transaction failed"
error_message unauthorized = "Caller is not authorized to perform this operation"
error_message daily_send_limit_exceeded = "Daily send limit exceeded for this user"
error_message token_already_whitelisted = "Token is already whitelisted"
error_message kyc_expired = "User KYC has expired"
error_message transaction_not_found = "Transaction record not found"
error_message rate_limit_exceeded = "Rate limit exceeded"
error_message admin_already_exists = "Admin address already exists"
error_message admin_not_found = "Admin address does not exist"
error_message cannot_remove_last_admin = "Cannot remove the last admin"
error_message token_not_whitelisted = "Token is not whitelisted"
error_message invalid_migration_hash = "Migration hash verification failed"
error_message migration_in_progress = "Migration already in progress or completed"
error_message invalid_migration_batch = "Migration batch out of order or invalid"
error_message cooldown_active = "Cooldown period is still active"
error_message suspicious_activity = "Suspicious activity detected"
error_message action_blocked = "Action temporarily blocked due to abuse protection"
error_message overflow = "Arithmetic overflow occurred"
error_message net_settlement_validation_failed = "Net settlement validation failed"
error_message escrow_not_found = "Escrow not found"
error_message invalid_escrow_status = "Invalid escrow status for this operation"
error_message settlement_counter_overflow = "Settlement counter overflow"
error_message invalid_batch_size = "Invalid batch size"
error_message data_corruption = "Data corruption detected"
error_message index_out_of_bounds = "Index out of bounds"
error_message empty_collection = "Collection is empty"
error_message key_not_found = "Key not found in map"
error_message string_conversion_failed = "String conversion failed"
error_message invalid_symbol = "Invalid symbol string"
error_message underflow = "Arithmetic underflow occurred"
error_message idempotency_conflict = "Idempotency key exists but request payload differs"
error_message invalid_proof = "Proof validation failed"
error_message missing_proof = "Proof is required but not provided"
error_message invalid_oracle_address = "Oracle address is invalid or not configured"
error_message dispute_window_expired = "The dispute window for this remittance has expired"
error_message already_disputed = "This remittance has already been disputed"
error_message not_disputed = "This operation requires the remittance to be in a Disputed state"
error_message already_paused = "Contract is already paused"
error_message not_paused = "Contract is not paused"
error_message timelock_active = "Timelock has not yet elapsed"
error_message already_voted = "Admin has already cast a vote for this instance"
error_message invalid_timelock_duration = "Timelock duration exceeds the maximum allowed value"
error_message invalid_quorum = "Quorum value is invalid"
error_message pause_record_not_found = "Pause record not found"
error_message invalid_recipient_hash = "Supplied recipient hash is not exactly 32 bytes"
error_message missing_recipient_hash = "Recipient hash is required but not provided"
error_message recipient_hash_mismatch = "Supplied recipient hash does not match the stored hash"
error_message recipient_hash_schema_mismatch = "Stored hash schema version mismatch"
error_message proposal_already_pending = "A proposal with this action type is already pending"
error_message proposal_not_found = "Proposal not found"
error_message invalid_proposal_state = "Proposal is not in the required state for this operation"
error_message timelock_not_elapsed = "Governance execution timelock has not yet elapsed"
error_message already_admin = "The address is already an Admin"
error_message insufficient_admins = "Removing this admin would violate the minimum admin invariant"
error_message agent_already_registered = "The agent is already registered"
error_message governance_already_initialized = "Governance has already been initialized"

-- `Object.values(ErrorCode)`, as far as it holds numbers, with the code of each.
abbrev pub all_codes : List ErrorCode
all_codes =
    already_initialized ∷ not_initialized ∷ invalid_amount ∷ invalid_fee_bps ∷ agent_not_registered
    ∷ remittance_not_found ∷ invalid_status ∷ invalid_state_transition ∷ no_fees_to_withdraw
    ∷ invalid_address ∷ settlement_expired ∷ duplicate_settlement ∷ contract_paused
    ∷ asset_not_found ∷ user_blacklisted ∷ invalid_reputation_score ∷ kyc_not_approved
    ∷ suspicious_asset ∷ anchor_transaction_failed ∷ unauthorized ∷ daily_send_limit_exceeded
    ∷ token_already_whitelisted ∷ kyc_expired ∷ transaction_not_found ∷ rate_limit_exceeded
    ∷ admin_already_exists ∷ admin_not_found ∷ cannot_remove_last_admin ∷ token_not_whitelisted
    ∷ invalid_migration_hash ∷ migration_in_progress ∷ invalid_migration_batch ∷ cooldown_active
    ∷ suspicious_activity ∷ action_blocked ∷ overflow ∷ net_settlement_validation_failed
    ∷ escrow_not_found ∷ invalid_escrow_status ∷ settlement_counter_overflow ∷ invalid_batch_size
    ∷ data_corruption ∷ index_out_of_bounds ∷ empty_collection ∷ key_not_found
    ∷ string_conversion_failed ∷ invalid_symbol ∷ underflow ∷ idempotency_conflict ∷ invalid_proof
    ∷ missing_proof ∷ invalid_oracle_address ∷ dispute_window_expired ∷ already_disputed
    ∷ not_disputed ∷ already_paused ∷ not_paused ∷ timelock_active ∷ already_voted
    ∷ invalid_timelock_duration ∷ invalid_quorum ∷ pause_record_not_found ∷ invalid_recipient_hash
    ∷ missing_recipient_hash ∷ recipient_hash_mismatch ∷ recipient_hash_schema_mismatch
    ∷ proposal_already_pending ∷ proposal_not_found ∷ invalid_proposal_state ∷ timelock_not_elapsed
    ∷ already_admin ∷ insufficient_admins ∷ agent_already_registered
    ∷ governance_already_initialized ∷ []
