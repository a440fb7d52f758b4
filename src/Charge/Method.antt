-- ===== src/Charge/Method.antt =====
-- src/protocol/methods/movement/method.rs: `ChargeMethod`, which looks a payment up on the chain.
use mpp_movement.Prelude.{
  and_then, not, Option, none, some, ok, err, ok_or, ◌==◌, ◌++◌, if◌then◌else◌,
}
use mpp_movement.Text.{Text, codes, trim_end_matches}
use mpp_movement.Json
use mpp_movement.Json.{Json, as_str}
use mpp_movement.Challenge.Types.{PaymentCredential, Receipt, new_receipt}
use mpp_movement.Errors.{with_code, network_failure, pending, invalid_payload}
use mpp_movement.Session.State.{Outcome}
use mpp_movement.Session.Effects.{
  Prog, HttpAnswer, unreachable, answer, http_get, lift, call, ◌>>=◌,
}
use mpp_movement.Session.Chain.{unprefixed, is_success}
use mpp_movement.Charge.{verify_transaction}
use mpp_movement.Charge.Request.{ChargeRequest, PaymentPayload, RawPayload, deserialize, is_hash}

-- The Unicode tables, the derived readings of serde, and the clock.
pub record ChargeCrates : Type 0 where
  pub to_lowercase : Text → Text
  pub raw_payload : Json → Option RawPayload
  pub now_iso8601 : Text

module _ (crates : ChargeCrates) where
  open crates use {to_lowercase, raw_payload, now_iso8601}

  unfoldable pub answered : ChargeRequest → HttpAnswer → Outcome (Unit {0})
  answered request unreachable = err network_failure
  answered request (answer status body) =
      if status == 404
      then err pending
      else if not (is_success status)
      then err network_failure
      else elim body [
        | none ↦ err network_failure
        | some v ↦ verify_transaction to_lowercase v request
      ]

  -- `rest_url` has lost its trailing slashes in `ChargeMethod::new`.
  unfoldable pub verify_tx_hash : Text → Text → ChargeRequest → Prog Receipt
  unfolding answered
  verify_tx_hash rest_url tx_hash request = do
    let url =
        trim_end_matches b'/' rest_url ++ (codes "/transactions/by_hash/0x" ++ unprefixed tx_hash)
    a ← call (http_get url)
    _ ← lift (answered request a)
    lift (ok (new_receipt now_iso8601 (codes "movement") tx_hash))

  -- `charge_payload`.
  abbrev pub charge_payload : PaymentCredential → Option PaymentPayload
  charge_payload credential = and_then (raw_payload credential.payload) deserialize

  abbrev hash_or_tx_hash : Json → Option Json
  hash_or_tx_hash payload = elim (Json.get (codes "hash") payload) [
    | some v ↦ some v
    | none ↦ Json.get (codes "txHash") payload
  ]

  -- The hash of a credential's transaction.
  unfoldable pub paid_hash : PaymentCredential → Outcome Text
  paid_hash credential = elim (charge_payload credential) [
    | some payload ↦
        if is_hash payload then ok payload.data_field else err (with_code invalid_payload)
    | none ↦
        ok_or (and_then (hash_or_tx_hash credential.payload) as_str) (with_code invalid_payload)
  ]

  -- `ChargeMethod::verify`.
  unfoldable pub verify_charge : Text → PaymentCredential → ChargeRequest → Prog Receipt
  verify_charge rest_url credential request = do
    tx_hash ← lift (paid_hash credential)
    verify_tx_hash rest_url tx_hash request
