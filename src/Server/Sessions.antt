-- ===== src/Server/Sessions.antt =====
-- src/server/mpp.rs: the session challenges that a server issues. The writing of serde is a parameter.
use mpp_movement.Prelude.{Option, none, some, Result, ok, ok_or, or_else, ◌>>=◌}
use mpp_movement.Text.{Text, codes}
use mpp_movement.Json.{Json, str, obj, field, end}
use mpp_movement.Challenge.{compute_challenge_id}
use mpp_movement.Challenge.Types.{Codec, PaymentChallenge}
use mpp_movement.Client.{default_module_address}
use mpp_movement.Session.Payload.{method_name, intent_session}
use mpp_movement.Session.Request.{SessionRequest}
use mpp_movement.Server.{Formats, Mpp, IssueError, not_written}
use mpp_movement.Server.Issue.{require_movement_config, expiry_of}

pub record MovementSessionOptions : Type 0 where
  pub unit_type : Option Text
  pub suggested_deposit : Option Text
  pub module_address : Option Text
  pub registry_address : Option Text
  pub min_voucher_delta : Option Text
  pub description : Option Text
  pub expires : Option Text

abbrev pub module_of : MovementSessionOptions → Text
module_of options = or_else options.module_address default_module_address

abbrev pub method_details : Text → MovementSessionOptions → Json
method_details currency options = obj (
    field (codes "moduleAddress") (str (module_of options)) (
      field (codes "registryAddress") (str (or_else options.registry_address (module_of options))) (
        field (codes "tokenMetadata") (str currency) (elim options.min_voucher_delta [
          | none ↦ end
          | some delta ↦ field (codes "minVoucherDelta") (str delta) end
        ]))))

-- The request of a challenge: the amount is written as it is given.
abbrev pub session_request : Text → Text → Text → MovementSessionOptions → SessionRequest
session_request amount_per_unit currency recipient options = record {
  amount = amount_per_unit;
  unit_type = options.unit_type;
  currency = currency;
  decimals = none;
  recipient = some recipient;
  suggested_deposit = options.suggested_deposit;
  method_details = some (method_details currency options);
}

module _ (codec : Codec) (formats : Formats) (encode_session : SessionRequest → Option Text) where
  abbrev pub session_challenge :
      Mpp → Text → Text → Text → MovementSessionOptions → Result IssueError PaymentChallenge
  session_challenge mpp amount_per_unit currency recipient options = do
    encoded ←
        ok_or (encode_session (session_request amount_per_unit currency recipient options))
          not_written
    expiry ← expiry_of codec formats options.expires
    ok (record {
      id =
          compute_challenge_id codec mpp.secret_key mpp.realm method_name intent_session encoded
            (some expiry) none none;
      realm = mpp.realm;
      method = method_name;
      intent = intent_session;
      request = encoded;
      expires = some expiry;
      description = options.description;
      digest = none;
      opaque = none;
    })

  unfoldable pub movement_session_challenge :
      Mpp → Text → MovementSessionOptions → Result IssueError PaymentChallenge
  movement_session_challenge mpp amount_per_unit options = do
    bound ← require_movement_config mpp
    session_challenge mpp amount_per_unit bound.0 bound.1 options

  unfoldable pub movement_session_challenge_with_recipient :
      Mpp → Text → Text → MovementSessionOptions → Result IssueError PaymentChallenge
  movement_session_challenge_with_recipient mpp amount_per_unit recipient options = do
    bound ← require_movement_config mpp
    session_challenge mpp amount_per_unit bound.0 recipient options
