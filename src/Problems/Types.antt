-- ===== src/Problems/Types.antt =====
-- src/error.rs: the errors of the library.
use mpp_movement.Prelude.{ℕ, Option}
use mpp_movement.Text.{Text}

pub data MppError : Type 0 where
  amount_exceeds_max : (required max : ℕ) → MppError
  invalid_amount invalid_config http : Text → MppError
  chain_id_mismatch : (expected got : ℕ) → MppError
  json hex_decode base64_decode : Text → MppError
  unsupported_payment_method missing_header invalid_base64_url : Text → MppError
  malformed_credential : Option Text → MppError
  invalid_challenge : (id reason : Option Text) → MppError
  verification_failed payment_expired : Option Text → MppError
  payment_required : (realm description : Option Text) → MppError
  invalid_payload bad_request : Option Text → MppError
  insufficient_balance invalid_signature signer_mismatch : Option Text → MppError
  amount_exceeds_deposit delta_too_small channel_not_found channel_closed : Option Text → MppError
  io : Text → MppError
  invalid_utf8 : MppError
  system_time : Text → MppError
