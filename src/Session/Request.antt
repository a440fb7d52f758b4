-- ===== src/Session/Request.antt =====
-- src/protocol/intents/session.rs: the request of a session, and the accessors that
-- src/protocol/methods/movement/session.rs adds to it.
use mpp_movement.Prelude.{
  ℕ, Option, none, some, Result, ok, err, ltb, ok_or, if◌then◌else◌, and_then, ◌>>=◌,
}
use mpp_movement.Text.{Text, codes}
use mpp_movement.Text.Number.{parse_u128}
use mpp_movement.Json
use mpp_movement.Json.{Json, as_str}
use mpp_movement.Amount.{parse_units}

pub record SessionRequest : Type 0 where
  pub amount : Text
  pub unit_type : Option Text
  pub currency : Text
  pub decimals : Option ℕ
  pub recipient : Option Text
  pub suggested_deposit : Option Text
  pub method_details : Option Json

-- The variants of `MppError` that a request raises.
pub data RequestError : Type 0 where
  invalid_amount : RequestError
  amount_exceeds_max : (required max : ℕ) → RequestError

abbrev pub units : Text → ℕ → Result RequestError Text
units amount decimals = elim (parse_units amount decimals) [
  | ok scaled ↦ ok scaled
  | err e ↦ err invalid_amount
]

abbrev pub units_if : Option Text → ℕ → Result RequestError (Option Text)
units_if none decimals = ok none
units_if (some deposit) decimals = do scaled ← units deposit decimals; ok (some scaled)

rescaled : SessionRequest → ℕ → Result RequestError SessionRequest
rescaled r decimals = do
  amount ← units r.amount decimals
  deposit ← units_if r.suggested_deposit decimals
  ok (record r { amount = amount; suggested_deposit = deposit; decimals = none })

unfoldable pub with_base_units : SessionRequest → Result RequestError SessionRequest
unfolding rescaled
with_base_units r = elim r.decimals [ none ↦ ok r | some decimals ↦ rescaled r decimals ]

abbrev pub parse_amount : SessionRequest → Result RequestError ℕ
parse_amount r = ok_or (parse_u128 r.amount) invalid_amount

unfoldable pub validate_max_amount : SessionRequest → Text → Result RequestError (Unit {0})
validate_max_amount r max_amount = do
  amount ← parse_amount r
  max ← ok_or (parse_u128 max_amount) invalid_amount
  if ltb max amount then err (amount_exceeds_max amount max) else ok tt

-- A text of the method's details.
abbrev pub detail : Text → SessionRequest → Option Text
detail key r = and_then (and_then r.method_details (Json.get key)) as_str

unfoldable pub module_address : SessionRequest → Option Text
module_address = detail (codes "moduleAddress")

unfoldable pub registry_address : SessionRequest → Option Text
registry_address = detail (codes "registryAddress")

unfoldable pub token_metadata : SessionRequest → Option Text
token_metadata = detail (codes "tokenMetadata")
