-- ===== src/Server/SessionTests.antt =====
-- A session challenge of a small server, for a payee of the call.
use mpp_movement.Prelude.{Option, ◌≡◌, refl, [], ◌∷◌, none, some, ok, inr, arith}
use mpp_movement.Text.{Text, codes, to_ascii_lowercase}
use mpp_movement.Text.Number.{parse_u64, parse_uint}
use mpp_movement.Json.{null}
use mpp_movement.Challenge.{to_echo, compute_challenge_id}
use mpp_movement.Challenge.Types.{PaymentChallenge, PaymentCredential}
use mpp_movement.Challenge.Tests.{toy_codec}
use mpp_movement.Voucher.Tests.{toy_crypto}
use mpp_movement.Client.{ClientCrates, read_terms}
use mpp_movement.Session.Request.{SessionRequest}
use mpp_movement.Server.{Formats, Mpp, verify_hmac_and_expiry}
use mpp_movement.Server.Issue.{require_movement_config}
use mpp_movement.Server.Sessions.{
  MovementSessionOptions, session_request, movement_session_challenge_with_recipient,
}
use mpp_movement.Server.Terms.{terms_of, issued_session_agrees}

abbrev toy_options : MovementSessionOptions
toy_options = record {
  unit_type = some (codes "request");
  suggested_deposit = some (codes "1000");
  module_address = some (codes "0xm");
  registry_address = none;
  min_voucher_delta = some (codes "10");
  description = none;
  expires = some (codes "<");
}

abbrev toy_request : SessionRequest
toy_request = session_request (codes "50") (codes "0xa") (codes "0x2") toy_options

abbrev toy_encode : SessionRequest → Option Text
toy_encode r = some (codes "e30")

abbrev toy_client : ClientCrates
toy_client = record {
  crypto = toy_crypto;
  hex_decode = λ t. some t;
  hex_encode = λ b. b;
  decode_request = λ t. some toy_request;
  to_lowercase = to_ascii_lowercase;
}

abbrev toy_formats : Formats
toy_formats = record {
  decode_charge = λ t. none;
  encode_charge = λ r. none;
  decode_session = λ t. none;
  payload_as = λ j. none;
  default_expires = none;
}

abbrev toy_mpp : Mpp
toy_mpp = record {
  realm = codes "api";
  secret_key = 5 ∷ [];
  currency = some (codes "0xa");
  recipient = some (codes "0xb");
  decimals = 6;
}

abbrev toy_challenge : PaymentChallenge
toy_challenge = record {
  id =
      compute_challenge_id toy_codec (5 ∷ []) (codes "api") (codes "movement") (codes "session")
        (codes "e30") (some (codes "<")) none none;
  realm = codes "api";
  method = codes "movement";
  intent = codes "session";
  request = codes "e30";
  expires = some (codes "<");
  description = none;
  digest = none;
  opaque = none;
}

abbrev toy_credential : PaymentCredential
toy_credential = record { challenge = to_echo toy_challenge; source = none; payload = null }

issues :
    movement_session_challenge_with_recipient toy_codec toy_formats toy_encode toy_mpp
      (codes "50")
      (codes "0x2")
      toy_options
    ≡ ok toy_challenge
unfolding movement_session_challenge_with_recipient require_movement_config
issues = refl

priced : parse_u64 (codes "50") ≡ some 50
unfolding parse_uint
priced = refl

issued_session_agrees_example :
    (read_terms toy_client toy_challenge
      ≡ ok (
          terms_of toy_codec toy_formats toy_encode toy_client toy_request 50
            (codes "0x2")
            (codes "0xm")))
    × (verify_hmac_and_expiry toy_codec toy_formats toy_mpp toy_credential ≡ ok tt)
issued_session_agrees_example =
    issued_session_agrees toy_codec toy_formats toy_encode toy_client toy_mpp (codes "0xa")
      (codes "0xb") (codes "0x2") (codes "50") toy_options toy_challenge 50 toy_credential refl refl
      (inr issues) priced refl (inr (codes "<", (60, refl, refl, omega arith))) (λ t e. refl)
