-- ===== src/Client/ChargeTests.antt =====
-- A small charge, and the theorem on it.
use mpp_movement.Prelude.{true, ◌≡◌, refl, ok, none, some, []}
use mpp_movement.Text.{codes, to_ascii_lowercase}
use mpp_movement.Text.Number.{parse_u64, parse_uint, to_string}
use mpp_movement.Json.{Json, obj, field, end, str, bool, arr, item, nil}
use mpp_movement.Challenge.Types.{PaymentCredential, new_receipt}
use mpp_movement.Session.Effects.{Rest, answer, run}
use mpp_movement.Charge.{skip_zeros}
use mpp_movement.Charge.Request.{ChargeRequest, hash}
use mpp_movement.Charge.Method.{ChargeCrates, verify_charge}
use mpp_movement.Client.Charging.{is_native_move, pay_charge, build_transfer_payload}
use mpp_movement.Client.Charged.{IsRecorded, paid_charge-IsAccepted}
use mpp_movement.Client.Tests.{toy_challenge}

abbrev pub toy_crates : ChargeCrates
toy_crates = record {
  to_lowercase = to_ascii_lowercase;
  raw_payload = λ j.
      some (record { payload_type = hash; signature = none; hash_field = some (codes "0x99") });
  now_iso8601 = codes "2026-01-01T00:00:00Z";
}

abbrev pub toy_request : ChargeRequest
toy_request = record {
  amount = codes "500";
  currency = codes "0xa";
  decimals = none;
  recipient = some (codes "0xabcd");
  description = none;
  external_id = none;
  method_details = none;
}

-- A transfer of the native token.
abbrev pub toy_transaction : Json
toy_transaction = obj (
    field (codes "type") (str (codes "user_transaction")) (
      field (codes "success") (bool true) (
        field (codes "payload")
          (obj (
            field (codes "function") (str (codes "0x1::aptos_account::transfer")) (
              field (codes "arguments")
                (arr (item (str (codes "0xabcd")) (item (str (codes "500")) nil))) end)))
          (field (codes "events") (arr nil) end))))

abbrev pub toy_rest : Rest
toy_rest q = answer 200 (some toy_transaction)

pub toy-IsRecorded :
    IsRecorded toy_transaction (build_transfer_payload (codes "0xa") (codes "0xabcd") 500)
unfolding build_transfer_payload is_native_move skip_zeros to_string
toy-IsRecorded = record {
  payload = obj (
      field (codes "function") (str (codes "0x1::aptos_account::transfer")) (
        field (codes "arguments") (arr (item (str (codes "0xabcd")) (item (str (codes "500")) nil)))
          end));
  typed = refl;
  good = refl;
  held = refl;
  called = refl;
  given = refl;
}

pub reads : parse_u64 (codes "500") ≡ some 500
unfolding parse_uint
reads = refl

paid_charge-IsAccepted_example :
    (credential : PaymentCredential) × (pay_charge
        (λ t. some toy_request)
        (λ p. some (codes "0x99"))
        toy_challenge
      ≡ ok credential)
    × (run toy_rest (verify_charge toy_crates (codes "https://rest") credential toy_request) []
        ≡ (ok (new_receipt (codes "2026-01-01T00:00:00Z") (codes "movement") (codes "0x99")), []))
paid_charge-IsAccepted_example =
    paid_charge-IsAccepted toy_crates (λ t. some toy_request) (λ p. some (codes "0x99"))
      toy_challenge toy_request (codes "0xabcd") (codes "0x99") 500 toy_rest (codes "https://rest")
      toy_transaction [] refl reads refl refl refl toy-IsRecorded refl
