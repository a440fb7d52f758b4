-- ===== src/Server.antt =====
-- src/server/mpp.rs and the challenges of src/protocol/methods/movement/mod.rs: the server that issues
-- challenges and checks credentials before a payment method sees them. The derived readings and
-- writings of serde and the clock are the record `Formats`.
pub mod Gate
pub mod Agreement
pub mod Issue
pub mod Issued
pub mod Sessions
pub mod Terms
pub mod Building
pub mod Created
mod SessionTests
mod BuildTests
mod Tests
use mpp_movement.Prelude.{
  ℕ, Bool, true, false, not, Option, none, some, Result, ok, err, leb, if◌then◌else◌,
}
use mpp_movement.Prelude
use mpp_movement.Text.{Text, codes, text_eq}
use mpp_movement.Json.{Json, obj, field, end, str}
use mpp_movement.Amount.{AmountError, parse_dollar_amount}
use mpp_movement.Challenge.{compute_challenge_id}
use mpp_movement.Challenge.Types.{
  Codec, ChallengeEcho, PaymentChallenge, PaymentCredential, Receipt,
}
use mpp_movement.Charge.Request.{ChargeRequest, RequestError, with_base_units}
use mpp_movement.Errors.{VerificationError, plain, with_code, expired, credential_mismatch}
use mpp_movement.Session.State.{Outcome}
use mpp_movement.Session.Effects.{Prog, lift, check, ◌>>=◌, ◌>>◌}
use mpp_movement.Session.Payload.{SessionCredentialPayload, voucher}

pub record Formats : Type 0 where
  pub decode_charge : Text → Option ChargeRequest
  pub encode_charge : ChargeRequest → Option Text
  -- The `method_details` of a session request that decodes.
  pub decode_session : Text → Option (Option Json)
  pub payload_as : Json → Option SessionCredentialPayload
  -- Five minutes from now, where that can be written.
  pub default_expires : Option Text

pub record Mpp : Type 0 where
  pub realm : Text
  pub secret_key : Text
  pub currency : Option Text
  pub recipient : Option Text
  pub decimals : ℕ

pub record SessionVerifyResult : Type 0 where
  pub receipt : Receipt
  pub management_response : Option Json

abbrev pub option_eq : Option Text → Option Text → Bool
option_eq none none = true
option_eq none (some t) = false
option_eq (some s) none = false
option_eq (some s) (some t) = text_eq s t

-- The variants of `MppError` that issuing a challenge raises.
pub data IssueError : Type 0 where
  invalid_config : IssueError
  bad_amount : AmountError → IssueError
  bad_request : RequestError → IssueError
  not_written : IssueError

abbrev pub mapped {ℓ κ μ} :
    {E : Type ℓ} {F : Type κ} {A : Type μ} → (E → F) → Result E A → Result F A
mapped f (ok a) = ok a
mapped f (err e) = err (f e)

module _ (codec : Codec) (formats : Formats) where
  open codec use {parse_rfc3339, now_utc}
  open formats use {decode_charge, encode_charge, decode_session, payload_as, default_expires}

  -- The id that the server's key gives to the fields of an echo.
  abbrev pub expected_id : Mpp → ChallengeEcho → Text
  expected_id mpp echo =
      compute_challenge_id codec mpp.secret_key mpp.realm echo.method echo.intent echo.request
        echo.expires echo.digest echo.opaque

  abbrev pub check_time : Option ℕ → Outcome (Unit {0})
  check_time none = err plain
  check_time (some t) = if leb t now_utc then err (with_code expired) else ok tt

  abbrev pub check_expiry : Option Text → Outcome (Unit {0})
  check_expiry none = ok tt
  check_expiry (some s) = check_time (parse_rfc3339 s)

  unfoldable pub verify_hmac_and_expiry : Mpp → PaymentCredential → Outcome (Unit {0})
  verify_hmac_and_expiry mpp credential =
      let echo = credential.challenge in
      if not (text_eq echo.id (expected_id mpp echo))
      then err (with_code credential_mismatch)
      else check_expiry echo.expires

  module _ (method : PaymentCredential → ChargeRequest → Prog Receipt) (mpp : Mpp) where
    unfoldable pub verify : PaymentCredential → ChargeRequest → Prog Receipt
    verify credential request = do
      _ ← lift (verify_hmac_and_expiry mpp credential)
      method credential request

    unfoldable pub verify_credential : PaymentCredential → Prog Receipt
    verify_credential credential = do
      request ← lift (Prelude.ok_or (decode_charge credential.challenge.request) plain)
      verify credential request

    unfoldable pub verify_credential_with_expected_request :
        PaymentCredential → ChargeRequest → Prog Receipt
    verify_credential_with_expected_request credential expected = do
      request ← lift (Prelude.ok_or (decode_charge credential.challenge.request) plain)
      check (text_eq request.amount expected.amount) (with_code credential_mismatch)
      check (text_eq request.currency expected.currency) (with_code credential_mismatch)
      check (option_eq request.recipient expected.recipient) (with_code credential_mismatch)
      verify credential request

  abbrev pub managed : SessionCredentialPayload → Option Json
  managed (voucher id amount sig) = none
  managed _ = some (obj (field (codes "status") (str (codes "ok")) end))

  -- `SessionMethod::respond`: every action but a voucher has an answer of its own.
  unfoldable pub respond : PaymentCredential → Option Json
  respond credential = elim (payload_as credential.payload) [ none ↦ none | some p ↦ managed p ]

  -- `session` is the session method's `verify_session`, where one is configured.
  unfoldable pub verify_server_session :
      Option (PaymentCredential → Option Json → Prog Receipt)
      → Mpp
      → PaymentCredential
      → Prog SessionVerifyResult
  verify_server_session session mpp credential = do
    verifier ← lift (Prelude.ok_or session plain)
    _ ← lift (verify_hmac_and_expiry mpp credential)
    details ← lift (Prelude.ok_or (decode_session credential.challenge.request) plain)
    receipt ← verifier credential details
    lift (ok (record { receipt = receipt; management_response = respond credential }))
