-- ===== src/Server/Tests.antt =====
-- A small server, and the theorems on the gate and on issued challenges at it.
use mpp_movement.Prelude.{ℕ, ◌≡◌, refl, sym, ap, [], ◌∷◌, none, some, ok, inl, arith}
use mpp_movement.Text.{Text, codes, is_whitespace, trim}
use mpp_movement.Text.Number.{to_string, parse_uint}
use mpp_movement.Json.{null}
use mpp_movement.Amount.{parse_dollar_amount, scale_parts}
use mpp_movement.Challenge.{compute_challenge_id, hmac_input, to_echo}
use mpp_movement.Challenge.Types.{
  ChallengeEcho, PaymentChallenge, PaymentCredential, Receipt, success,
}
use mpp_movement.Challenge.Tests.{toy_codec, toy_challenge}
use mpp_movement.Charge.Request.{ChargeRequest, with_base_units}
use mpp_movement.Session.Effects.{Rest, unreachable, Prog, run, ◌>>=◌, lift, check}
use mpp_movement.Server.{
  Formats, Mpp, verify, verify_hmac_and_expiry, verify_credential_with_expected_request,
}
use mpp_movement.Server.Issue.{
  ChargeOptions, plain_request, charge_challenge_with_options, require_movement_config,
  movement_charge_with_options,
}
use mpp_movement.Server.Gate.{
  IsAdmitted, IsAccepted, verify_hmac_and_expiry_iff, expected_request_sound, IsEchoOf,
  admitted_echo_is_issued,
}
use mpp_movement.Server.Issued.{movement_charge_exact}

abbrev toy_request : ChargeRequest
toy_request = plain_request (codes "1250000") (codes "0xa") (codes "0xb") none none

abbrev toy_formats : Formats
toy_formats = record {
  decode_charge = λ t. some toy_request;
  encode_charge = λ r. some (codes "e30");
  decode_session = λ t. some none;
  payload_as = λ j. none;
  default_expires = some (codes "<");
}

abbrev toy_mpp : Mpp
toy_mpp = record {
  realm = codes "api";
  secret_key = 5 ∷ [];
  currency = some (codes "0xa");
  recipient = some (codes "0xb");
  decimals = 6;
}

abbrev toy_echo : ChallengeEcho
toy_echo = record {
  id = toy_challenge.id;
  realm = codes "api";
  method = codes "movement";
  intent = codes "charge";
  request = codes "e30";
  expires = none;
  digest = none;
  opaque = none;
}

abbrev toy_credential : PaymentCredential
toy_credential = record { challenge = toy_echo; source = none; payload = null }

abbrev toy_receipt : Receipt
toy_receipt = record {
  status = success;
  method = codes "movement";
  timestamp = [];
  reference = codes "0x99";
}

abbrev toy_method : PaymentCredential → ChargeRequest → Prog Receipt
toy_method credential request = lift (ok toy_receipt)

abbrev toy_rest : Rest
toy_rest q = unreachable

toy_issued :
    toy_challenge.id
    ≡ compute_challenge_id toy_codec
        (5 ∷ [])
        (codes "api")
        (codes "movement")
        (codes "charge")
        (codes "e30")
        none
        none
        none
unfolding compute_challenge_id hmac_input
toy_issued = refl

toy_credential-IsAdmitted : IsAdmitted toy_codec toy_formats toy_mpp toy_credential
toy_credential-IsAdmitted = record { issued = toy_issued; current = inl refl }

verify_hmac_and_expiry_iff_example :
    ((verify_hmac_and_expiry toy_codec toy_formats toy_mpp toy_credential ≡ ok tt)
      → IsAdmitted toy_codec toy_formats toy_mpp toy_credential)
    × (IsAdmitted toy_codec toy_formats toy_mpp toy_credential
        → (verify_hmac_and_expiry toy_codec toy_formats toy_mpp toy_credential ≡ ok tt))
verify_hmac_and_expiry_iff_example =
    verify_hmac_and_expiry_iff toy_codec toy_formats toy_mpp toy_credential

passes :
    (run toy_rest
      (verify_credential_with_expected_request toy_codec toy_formats toy_method toy_mpp
        toy_credential toy_request)
      []).0
    ≡ ok toy_receipt
unfolding verify_credential_with_expected_request verify verify_hmac_and_expiry compute_challenge_id
    hmac_input run ◌>>=◌ lift check
passes = refl

expected_request_sound_example :
    (a : IsAccepted toy_codec toy_formats toy_method toy_mpp toy_rest toy_credential toy_receipt [])
    × (a.request.amount ≡ codes "1250000")
    × (a.request.currency ≡ codes "0xa")
    × (a.request.recipient ≡ some (codes "0xb"))
expected_request_sound_example =
    expected_request_sound toy_codec toy_formats toy_method toy_mpp toy_rest toy_credential
      toy_request [] toy_receipt passes

-- The echo of another challenge under the id of the first.
abbrev forged_credential : PaymentCredential
forged_credential = record {
  challenge = record toy_echo { request = codes "e31" };
  source = none;
  payload = null;
}

forged_refused : ¬ IsAdmitted toy_codec toy_formats toy_mpp forged_credential
unfolding compute_challenge_id hmac_input
forged_refused i = absurd (omega (arith, ap head i.issued))
  where
    head : Text → ℕ
    head [] = 0
    head (c ∷ s) = c

admitted_echo_is_issued_example :
    (IsEchoOf toy_codec toy_formats toy_challenge toy_echo)
    × (verify_hmac_and_expiry toy_codec toy_formats toy_mpp
          (record toy_credential { challenge = record toy_echo { realm = codes "elsewhere" } })
        ≡ ok tt)
unfolding to_echo
admitted_echo_is_issued_example =
    admitted_echo_is_issued toy_codec toy_formats toy_mpp toy_challenge toy_credential
      (codes "elsewhere") toy_issued refl refl (λ e. refl) refl
      ((verify_hmac_and_expiry_iff toy_codec toy_formats toy_mpp toy_credential).1
        toy_credential-IsAdmitted)

abbrev toy_options : ChargeOptions
toy_options = record { description = none; external_id = none; expires = none }

abbrev priced_challenge : PaymentChallenge
priced_challenge = record {
  id =
      compute_challenge_id toy_codec (5 ∷ []) (codes "api") (codes "movement") (codes "charge")
        (codes "e30") (some (codes "<")) none none;
  realm = codes "api";
  method = codes "movement";
  intent = codes "charge";
  request = codes "e30";
  expires = some (codes "<");
  description = none;
  digest = none;
  opaque = none;
}

issues :
    movement_charge_with_options toy_codec toy_formats toy_mpp (codes "1.25") toy_options
    ≡ ok priced_challenge
unfolding movement_charge_with_options require_movement_config parse_dollar_amount scale_parts trim
    charge_challenge_with_options with_base_units is_whitespace parse_uint
issues = refl

prints : to_string 1250000 ≡ codes "1250000"
unfolding to_string
prints = refl

movement_charge_exact_example :
    toy_formats.decode_charge priced_challenge.request
    ≡ some (plain_request (to_string 1250000) (codes "0xa") (codes "0xb") none none)
movement_charge_exact_example =
    movement_charge_exact toy_codec toy_formats toy_mpp (codes "1") (codes "25") (codes "0xa")
      (codes "0xb") toy_options priced_challenge refl refl refl refl (omega arith) (omega arith)
      (omega arith) (omega arith)
      (λ t e. ap (λ a. some (plain_request a (codes "0xa") (codes "0xb") none none)) (sym prints))
      issues
