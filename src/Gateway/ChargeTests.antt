-- ===== src/Gateway/ChargeTests.antt =====
-- A small charge from the client to the route and back.
use mpp_movement.Prelude.{true, arith, ◌≡◌, refl, [], Option, none, some, inr, ok, Result}
use mpp_movement.Text.{Text, codes, is_whitespace, trim}
use mpp_movement.Text.Number.{parse_uint}
use mpp_movement.Map.{lookup}
use mpp_movement.Amount.{parse_dollar_amount, scale_parts}
use mpp_movement.Challenge.Types.{PaymentCredential, Receipt, new_receipt}
use mpp_movement.Charge.Request.{with_base_units}
use mpp_movement.Charge.Method.{verify_charge}
use mpp_movement.Client.{EntryFunctionPayload}
use mpp_movement.Client.Charged.{paid_credential}
use mpp_movement.Client.ChargeTests
use mpp_movement.Client.ChargeTests.{toy_crates, toy_rest, toy_transaction, toy-IsRecorded, reads}
use mpp_movement.Headers.Tokens.{Tokens, IsToken}
use mpp_movement.Session.State.{Store}
use mpp_movement.Server.{Formats}
use mpp_movement.Server.Issue.{
  charge_challenge_with_options, require_movement_config, movement_charge_with_options,
}
use mpp_movement.Gateway.{Request, Response}
use mpp_movement.Gateway.Extractor.{mpp_challenge, with_receipt}
use mpp_movement.Gateway.Fetch.{PaymentProvider, HttpError, send_with_payment, handle}
use mpp_movement.Gateway.Carrying.{IsSendable}
use mpp_movement.Gateway.EndToEnd.{
  charge_provider, charging_route, IsTransferred, charged_fetch-IsServed,
}
use mpp_movement.Gateway.Toy.{
  toy_http, toy_http-IsHeaderMap, json_codec, toy_formats, toy_tokens, toy_mpp, toy_issued,
  toy_config, toy_handler, bare_request, toy_issued-IsPresentable, carried,
}

abbrev rest_url : Text
rest_url = codes "https://rest"

abbrev charge_formats : Formats
charge_formats = record toy_formats { decode_charge = λ t. some ChargeTests.toy_request }

abbrev submit : EntryFunctionPayload → Option Text
submit p = some (codes "0x99")

abbrev transferred : PaymentCredential
transferred = paid_credential toy_crates toy_issued (codes "0x99")

abbrev charge_tokens : Tokens
charge_tokens = record toy_tokens { credential_from = λ bs. some transferred }

issues :
    mpp_challenge json_codec charge_formats charge_tokens toy_rest
      (verify_charge toy_crates rest_url)
      toy_mpp
      (codes "1.25")
      none
    ≡ some toy_issued
unfolding mpp_challenge movement_charge_with_options require_movement_config parse_dollar_amount
    scale_parts trim charge_challenge_with_options with_base_units is_whitespace parse_uint
issues = refl

json-IsToken : IsToken charge_tokens (codes "eyJ9")
unfolding is_whitespace
json-IsToken = record {
  filled = refl;
  unbroken = (refl, (refl, (refl, (refl, tt))));
  single = refl;
  short = omega arith;
  decodes = refl;
}

transferred-IsSendable :
    IsSendable toy_http toy_http-IsHeaderMap json_codec charge_tokens transferred
transferred-IsSendable = record {
  bytes = codes "eyJ9";
  json = refl;
  reads = refl;
  token = json-IsToken;
  carried = carried _;
}

toy_issued-IsTransferred :
    IsTransferred toy_http toy_http-IsHeaderMap json_codec charge_tokens charge_formats toy_crates
      toy_rest rest_url toy_mpp toy_config toy_handler submit toy_issued
      (codes "0x99")
toy_issued-IsTransferred = record {
  request = ChargeTests.toy_request;
  decoded = refl;
  amount = 500;
  priced = reads;
  recipient = codes "0xabcd";
  payee = refl;
  submitted = refl;
  tx = toy_transaction;
  found = refl;
  recorded = toy-IsRecorded;
  read = refl;
}

abbrev provider : PaymentProvider (Unit {0})
provider = charge_provider charge_formats.decode_charge submit

abbrev toy_charging_route : Request toy_http → Store → Option (Response toy_http) × Store
toy_charging_route =
    charging_route toy_http toy_http-IsHeaderMap json_codec charge_tokens charge_formats toy_crates
      toy_rest rest_url toy_mpp toy_config toy_handler submit

abbrev receipt : Receipt
receipt = new_receipt (codes "2026-01-01T00:00:00Z") (codes "movement") (codes "0x99")

charged_fetch-IsServed_example :
    let served : Result HttpError (Response toy_http) × (Store × Unit {0}) =
      (ok (with_receipt toy_http charge_tokens receipt (toy_handler receipt)), ([], tt)) in
    (send_with_payment toy_http json_codec charge_tokens provider toy_charging_route true
        bare_request [] tt
      ≡ served)
    × (handle toy_http json_codec charge_tokens provider toy_charging_route true bare_request [] tt
        ≡ served)
unfolding lookup
charged_fetch-IsServed_example =
    charged_fetch-IsServed toy_http toy_http-IsHeaderMap json_codec charge_tokens charge_formats
      toy_crates toy_rest rest_url toy_mpp toy_config toy_handler submit bare_request toy_issued
      (codes "0x99") [] refl issues toy_issued-IsPresentable (λ t e. carried t)
      (inr (codes "<", (60, refl, refl, omega arith))) toy_issued-IsTransferred
      transferred-IsSendable
