-- ===== src/Errors.antt =====
-- src/protocol/traits/mod.rs: the errors of payment verification. Messages, which are texts for
-- people, are left out: an error is its code and its mark for a retry.
use mpp_movement.Prelude.{Bool, true, false, Option, none, some}

pub data ErrorCode : Type 0 where
  expired invalid_amount invalid_recipient transaction_failed not_found invalid_credential :
      ErrorCode
  network_error chain_id_mismatch credential_mismatch channel_not_found channel_closed : ErrorCode
  insufficient_balance invalid_payload invalid_signature amount_exceeds_deposit : ErrorCode
  delta_too_small : ErrorCode

pub record VerificationError : Type 0 where
  pub code : Option ErrorCode
  pub retryable : Bool

-- `VerificationError::new`.
abbrev pub plain : VerificationError
plain = record { code = none; retryable = false }

abbrev pub with_code : ErrorCode → VerificationError
with_code c = record { code = some c; retryable = false }

abbrev pub retry : VerificationError → VerificationError
retry e = record e { retryable = true }

-- The retryable errors: `network_error` and `pending`.
abbrev pub network_failure : VerificationError
network_failure = retry (with_code network_error)

abbrev pub pending : VerificationError
pending = retry (with_code not_found)
