-- ===== src/Client/Charging.antt =====
-- src/client/movement/mod.rs: the client's side of a charge. serde and the submission of a transaction
-- are parameters.
use mpp_movement.Prelude.{
  Bool, ℕ, [], ◌∷◌, Option, none, Result, ok, err, ok_or, ◌&&◌, ◌||◌, if◌then◌else◌, ◌>>=◌,
}
use mpp_movement.Text.{Text, codes, text_eq, eq_ignore_ascii_case}
use mpp_movement.Text.Number.{to_string}
use mpp_movement.Json.{Json, str, obj, field, end}
use mpp_movement.Challenge.{to_echo}
use mpp_movement.Challenge.Types.{PaymentChallenge, PaymentCredential}
use mpp_movement.Session.Chain.{unprefixed}
use mpp_movement.Session.Payload.{method_name, intent_session}
use mpp_movement.Charge.{skip_zeros}
use mpp_movement.Charge.Request.{ChargeRequest, amount_u64, recipient_str}
use mpp_movement.Client.{EntryFunctionPayload}

-- The variants of `MppError` that the provider raises, without their messages.
pub data ChargeError : Type 0 where
  bad_request : ChargeError
  bad_terms : ChargeError
  http : ChargeError
  unsupported_method : ChargeError

unfoldable pub is_native_move : Text → Bool
is_native_move currency = eq_ignore_ascii_case (skip_zeros (unprefixed currency)) (codes "a")

unfoldable pub build_transfer_payload : Text → Text → ℕ → EntryFunctionPayload
build_transfer_payload currency recipient amount =
    if is_native_move currency
    then record {
      function = codes "0x1::aptos_account::transfer";
      type_arguments = [];
      arguments = str recipient ∷ str (to_string amount) ∷ [];
    }
    else record {
      function = codes "0x1::primary_fungible_store::transfer";
      type_arguments = codes "0x1::fungible_asset::Metadata" ∷ [];
      arguments = str currency ∷ str recipient ∷ str (to_string amount) ∷ [];
    }

-- `PaymentPayload::hash`, as it is serialized.
abbrev pub hash_payload : Text → Json
hash_payload tx_hash =
    obj (field (codes "type") (str (codes "hash")) (field (codes "hash") (str tx_hash) end))

unfoldable pub supports : Text → Text → Bool
supports method intent =
    text_eq method method_name && (text_eq intent (codes "charge") || text_eq intent intent_session)

abbrev of_terms : {A E : Type 0} → Result E A → Result ChargeError A
of_terms (ok a) = ok a
of_terms (err e) = err bad_terms

module _ (decode_request : Text → Option ChargeRequest)
    (submit : EntryFunctionPayload → Option Text) where
  unfoldable pub pay_charge : PaymentChallenge → Result ChargeError PaymentCredential
  pay_charge challenge = do
    request ← ok_or (decode_request challenge.request) bad_request
    amount ← of_terms (amount_u64 request)
    recipient ← of_terms (recipient_str request)
    tx_hash ← ok_or (submit (build_transfer_payload request.currency recipient amount)) http
    ok (record { challenge = to_echo challenge; source = none; payload = hash_payload tx_hash })

  -- A session's challenge is paid like a charge.
  unfoldable pub pay : PaymentChallenge → Result ChargeError PaymentCredential
  pay challenge =
      if text_eq challenge.intent (codes "charge")
      then pay_charge challenge
      else if text_eq challenge.intent (codes "session")
      then pay_charge challenge
      else err unsupported_method
