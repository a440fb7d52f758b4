-- ===== src/Charge/Tests.antt =====
-- A small chain, and the theorems on charges at it.
use mpp_movement.Prelude.{◌^◌, ◌≡◌, refl, [], ◌∷◌, none, some, ok, true}
use mpp_movement.Text.{Text, codes, to_ascii_lowercase}
use mpp_movement.Text.Number.{parse_uint}
use mpp_movement.Json.{Json, obj, field, end, str, bool, arr, item, nil}
use mpp_movement.Challenge.Types.{PaymentCredential, Receipt, success}
use mpp_movement.Session.Effects.{Rest, answer}
use mpp_movement.Charge.{
  verify_transaction, normalize_address, same_address, verify_transfer_events, matches_event,
  parse_event_amount,
}
use mpp_movement.Charge.Request.{ChargeRequest}
use mpp_movement.Charge.Method.{ChargeCrates}
use mpp_movement.Charge.Accepting.{unknown_function_pays, fa_payment}

abbrev toy_request : ChargeRequest
toy_request = record {
  amount = codes "500";
  currency = codes "0xfa";
  decimals = none;
  recipient = some (codes "0xabcd");
  description = none;
  external_id = none;
  method_details = none;
}

abbrev toy_crates : ChargeCrates
toy_crates = record {
  to_lowercase = to_ascii_lowercase;
  raw_payload = λ j. none;
  now_iso8601 = codes "2026-01-01T00:00:00Z";
}

abbrev toy_rest : Rest
toy_rest q = answer 200 (some (fa_payment (codes "0xfa") (codes "0xabcd") (codes "500")))

abbrev toy_credential : PaymentCredential
toy_credential = record {
  challenge = record {
    id = codes "c1";
    realm = codes "api";
    method = codes "movement";
    intent = codes "charge";
    request = codes "e30";
    expires = none;
    digest = none;
    opaque = none;
  };
  source = none;
  payload = obj (field (codes "hash") (str (codes "0x99")) end);
}

abbrev toy_receipt : Receipt
toy_receipt = record {
  status = success;
  method = codes "movement";
  timestamp = codes "2026-01-01T00:00:00Z";
  reference = codes "0x99";
}

-- An event of a module that anyone can publish.
abbrev forged_event : Json
forged_event = obj (
    field (codes "type") (str (codes "0xbad::fungible_asset::Deposit")) (
      field (codes "key") (str (codes "0xabcd"))
        (field (codes "data") (obj (field (codes "amount") (str (codes "500")) end)) end)))

abbrev forged_payload : Json
forged_payload = obj (field (codes "function") (str (codes "0xbad::m::run")) end)

abbrev forged : Json
forged = obj (
    field (codes "success") (bool true) (
      field (codes "payload") forged_payload
        (field (codes "events") (arr (item forged_event nil)) end)))

matches : verify_transfer_events to_ascii_lowercase (forged_event ∷ []) (codes "0xabcd") 500 ≡ true
unfolding verify_transfer_events matches_event parse_event_amount normalize_address same_address
    parse_uint
matches = refl

reads : parse_uint (2 ^ 64) (codes "500") ≡ some 500
unfolding parse_uint
reads = refl

unknown_function_pays_example : verify_transaction to_ascii_lowercase forged toy_request ≡ ok tt
unknown_function_pays_example =
    unknown_function_pays to_ascii_lowercase forged forged_payload toy_request (forged_event ∷ [])
      (codes "0xabcd") 500 refl refl refl refl refl refl refl matches reads refl
