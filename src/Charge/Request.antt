-- ===== src/Charge/Request.antt =====
-- src/protocol/intents/charge.rs, src/protocol/methods/movement/charge.rs and the payload of
-- src/protocol/core/challenge.rs: what a charge asks for and what a client pays with. `from_value`
-- of serde is a parameter.
use mpp_movement.Prelude.{
  ℕ, Bool, true, false, Option, none, some, Result, ok, err, ltb, ok_or, if◌then◌else◌, ◌>>=◌,
}
use mpp_movement.Text.{Text}
use mpp_movement.Text.Number.{parse_u64, parse_u128}
use mpp_movement.Json.{Json}
use mpp_movement.Amount.{parse_units}

pub record ChargeRequest : Type 0 where
  pub amount : Text
  pub currency : Text
  pub decimals : Option ℕ
  pub recipient : Option Text
  pub description : Option Text
  pub external_id : Option Text
  pub method_details : Option Json

-- The variants of `MppError` that a request raises.
pub data RequestError : Type 0 where
  invalid_amount : RequestError
  invalid_challenge : RequestError
  amount_exceeds_max : (required max : ℕ) → RequestError

rescaled : ChargeRequest → ℕ → Result RequestError ChargeRequest
rescaled r decimals = elim (parse_units r.amount decimals) [
  | ok amount ↦ ok (record r { amount = amount; decimals = none })
  | err e ↦ err invalid_amount
]

unfoldable pub with_base_units : ChargeRequest → Result RequestError ChargeRequest
unfolding rescaled
with_base_units r = elim r.decimals [ none ↦ ok r | some decimals ↦ rescaled r decimals ]

abbrev pub parse_amount : ChargeRequest → Result RequestError ℕ
parse_amount r = ok_or (parse_u128 r.amount) invalid_amount

unfoldable pub validate_max_amount : ChargeRequest → Text → Result RequestError (Unit {0})
validate_max_amount r max_amount = do
  amount ← parse_amount r
  max ← ok_or (parse_u128 max_amount) invalid_amount
  if ltb max amount then err (amount_exceeds_max amount max) else ok tt

abbrev pub amount_u64 : ChargeRequest → Result RequestError ℕ
amount_u64 r = ok_or (parse_u64 r.amount) invalid_amount

abbrev pub recipient_str : ChargeRequest → Result RequestError Text
recipient_str r = ok_or r.recipient invalid_challenge

pub data PayloadType : Type 0 where
  transaction hash : PayloadType

-- What serde derives the reading of.
pub record RawPayload : Type 0 where
  pub payload_type : PayloadType
  pub signature : Option Text
  pub hash_field : Option Text

pub record PaymentPayload : Type 0 where
  pub payload_type : PayloadType
  pub data_field : Text

-- The body of `PaymentPayload::deserialize`.
unfoldable pub deserialize : RawPayload → Option PaymentPayload
deserialize raw = elim raw.payload_type [
  | transaction ↦ paid raw.signature
  | hash ↦ paid raw.hash_field
]
  where
    paid : Option Text → Option PaymentPayload
    paid none = none
    paid (some text) = some (record { payload_type = raw.payload_type; data_field = text })

unfoldable pub is_hash : PaymentPayload → Bool
is_hash p = elim p.payload_type [ transaction ↦ false | hash ↦ true ]

unfoldable pub is_transaction : PaymentPayload → Bool
is_transaction p = elim p.payload_type [ transaction ↦ true | hash ↦ false ]

abbrev pub data_if : Bool → PaymentPayload → Option Text
data_if b p = if b then some p.data_field else none

unfoldable pub tx_hash : PaymentPayload → Option Text
tx_hash p = data_if (is_hash p) p

unfoldable pub signed_tx : PaymentPayload → Option Text
signed_tx p = data_if (is_transaction p) p
