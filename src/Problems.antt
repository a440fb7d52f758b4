-- ===== src/Problems.antt =====
-- src/error.rs: the errors of the library as problem details of RFC 9457. An error of another crate
-- stands for the text that it displays.
pub mod Types
pub mod Texts
pub mod Agreement
pub mod Tests
use mpp_movement.Prelude.{ℕ, Bool, true, false, ◌++◌, [], Option, none, some, is_some, or_else}
use mpp_movement.Text.{Text, codes}
use mpp_movement.Text.Number.{to_string}
use mpp_movement.Errors
use mpp_movement.Errors.{VerificationError}
use mpp_movement.Problems.Types.{
  MppError, amount_exceeds_max, invalid_amount, invalid_config, http, chain_id_mismatch, json,
  hex_decode, base64_decode, unsupported_payment_method, missing_header, invalid_base64_url,
  malformed_credential, invalid_challenge, verification_failed, payment_expired, payment_required,
  invalid_payload, bad_request, insufficient_balance, invalid_signature, signer_mismatch,
  amount_exceeds_deposit, delta_too_small, channel_not_found, channel_closed, io, invalid_utf8,
  system_time,
}
use mpp_movement.Problems.Texts.{display}

abbrev pub core_problem_type_base : Text
core_problem_type_base = codes "https://paymentauth.org/problems"

abbrev pub session_problem_type_base : Text
session_problem_type_base = codes "https://paymentauth.org/problems/session"

pub record PaymentErrorDetails : Type 0 where
  pub problem_type : Text
  pub title : Text
  pub status : ℕ
  pub detail : Text
  pub challenge_id : Option Text

-- `PaymentErrorDetails::new`.
abbrev pub details_of : Text → PaymentErrorDetails
details_of type_uri = record {
  problem_type = type_uri;
  title = [];
  status = 402;
  detail = [];
  challenge_id = none;
}

abbrev pub core : Text → PaymentErrorDetails
core suffix = details_of (core_problem_type_base ++ (codes "/" ++ suffix))

abbrev pub session : Text → PaymentErrorDetails
session suffix = details_of (session_problem_type_base ++ (codes "/" ++ suffix))

-- `with_title` and `with_status`.
abbrev pub titled : PaymentErrorDetails → Text → ℕ → PaymentErrorDetails
titled d title status = record d { title = title; status = status }

abbrev pub with_detail : PaymentErrorDetails → Text → PaymentErrorDetails
with_detail d detail = record d { detail = detail }

abbrev pub with_challenge_id : PaymentErrorDetails → Text → PaymentErrorDetails
with_challenge_id d id = record d { challenge_id = some id }

unfoldable pub problem_type_suffix : MppError → Option Text
problem_type_suffix (malformed_credential r) = some (codes "malformed-credential")
problem_type_suffix (invalid_challenge i r) = some (codes "invalid-challenge")
problem_type_suffix (verification_failed r) = some (codes "verification-failed")
problem_type_suffix (payment_expired r) = some (codes "payment-expired")
problem_type_suffix (payment_required r d) = some (codes "payment-required")
problem_type_suffix (invalid_payload r) = some (codes "invalid-payload")
problem_type_suffix (bad_request r) = some (codes "bad-request")
problem_type_suffix (insufficient_balance r) = some (codes "session/insufficient-balance")
problem_type_suffix (invalid_signature r) = some (codes "session/invalid-signature")
problem_type_suffix (signer_mismatch r) = some (codes "session/signer-mismatch")
problem_type_suffix (amount_exceeds_deposit r) = some (codes "session/amount-exceeds-deposit")
problem_type_suffix (delta_too_small r) = some (codes "session/delta-too-small")
problem_type_suffix (channel_not_found r) = some (codes "session/channel-not-found")
problem_type_suffix (channel_closed r) = some (codes "session/channel-finalized")
problem_type_suffix _ = none

unfoldable pub is_payment_problem : MppError → Bool
is_payment_problem e = is_some (problem_type_suffix e)

-- The match of `to_problem_details`.
unfoldable pub problem_of : MppError → PaymentErrorDetails
problem_of (malformed_credential r) =
    titled (core (codes "malformed-credential")) (codes "MalformedCredentialError") 402
problem_of (invalid_challenge i r) =
    titled (core (codes "invalid-challenge")) (codes "InvalidChallengeError") 402
problem_of (verification_failed r) =
    titled (core (codes "verification-failed")) (codes "VerificationFailedError") 402
problem_of (payment_expired r) =
    titled (core (codes "payment-expired")) (codes "PaymentExpiredError") 402
problem_of (payment_required r d) =
    titled (core (codes "payment-required")) (codes "PaymentRequiredError") 402
problem_of (invalid_payload r) =
    titled (core (codes "invalid-payload")) (codes "InvalidPayloadError") 402
problem_of (bad_request r) = titled (core (codes "bad-request")) (codes "BadRequestError") 400
problem_of (insufficient_balance r) =
    titled (session (codes "insufficient-balance")) (codes "InsufficientBalanceError") 402
problem_of (invalid_signature r) =
    titled (session (codes "invalid-signature")) (codes "InvalidSignatureError") 402
problem_of (signer_mismatch r) =
    titled (session (codes "signer-mismatch")) (codes "SignerMismatchError") 402
problem_of (amount_exceeds_deposit r) =
    titled (session (codes "amount-exceeds-deposit")) (codes "AmountExceedsDepositError") 402
problem_of (delta_too_small r) =
    titled (session (codes "delta-too-small")) (codes "DeltaTooSmallError") 402
problem_of (channel_not_found r) =
    titled (session (codes "channel-not-found")) (codes "ChannelNotFoundError") 410
problem_of (channel_closed r) =
    titled (session (codes "channel-finalized")) (codes "ChannelClosedError") 410
problem_of _ = titled (core (codes "internal-error")) (codes "InternalError") 402

abbrev pub embedded_id : MppError → Option Text
embedded_id (invalid_challenge id reason) = id
embedded_id _ = none

abbrev pub or_this : Option Text → Option Text → Option Text
or_this none o = o
or_this (some id) o = some id

abbrev pub attach : PaymentErrorDetails → Option Text → PaymentErrorDetails
attach problem none = problem
attach problem (some id) = with_challenge_id problem id

unfoldable pub to_problem_details : MppError → Option Text → PaymentErrorDetails
unfolding problem_of
to_problem_details e challenge_id =
    attach (with_detail (problem_of e) (display e)) (or_this challenge_id (embedded_id e))

-- `From<VerificationError>`, of the error with its message.
abbrev pub of_code : Option Errors.ErrorCode → Text → MppError
of_code (some Errors.expired) m = payment_expired none
of_code (some Errors.invalid_credential) m = malformed_credential (some m)
of_code (some Errors.channel_not_found) m = channel_not_found (some m)
of_code (some Errors.channel_closed) m = channel_closed (some m)
of_code (some Errors.insufficient_balance) m = insufficient_balance (some m)
of_code (some Errors.invalid_payload) m = invalid_payload (some m)
of_code (some Errors.invalid_signature) m = invalid_signature (some m)
of_code (some Errors.amount_exceeds_deposit) m = amount_exceeds_deposit (some m)
of_code (some Errors.delta_too_small) m = delta_too_small (some m)
of_code _ m = verification_failed (some m)

unfoldable pub from_verification : VerificationError → Text → MppError
from_verification e message = of_code e.code message
