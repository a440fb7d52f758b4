-- ===== src/Charge.antt =====
-- src/protocol/methods/movement/method.rs: checking that a transaction on the chain pays a charge.
-- The Unicode tables behind `to_lowercase` and the derived readings of serde are parameters.
pub mod Request
pub mod Method
pub mod Evidence
pub mod Currency
pub mod Sound
pub mod Lookup
pub mod Accepting
mod Tests
use mpp_movement.Prelude.{
  or_else, and_then, ℕ, zero, suc, ◌+◌, ◌-◌, ◌≡◌, refl, Bool, true, false, not, ◌&&◌, ◌||◌, ◌++◌,
  List, [], ◌∷◌, Option, none, some, Result, ok, err, ◌>>=◌, ◌>>◌, require, ok_or, ltb, leb, ◌==◌,
  if◌then◌else◌, is_empty, any, get_elem?, length,
}
use mpp_movement.Text.{Text, codes, text_eq, contains, eq_ignore_ascii_case, trim_end_matches}
use mpp_movement.Text.Number.{parse_u64}
use mpp_movement.Json
use mpp_movement.Json.{Json, as_str, as_bool, as_u64, as_array}
use mpp_movement.Errors.{plain, with_code, pending, transaction_failed}
use mpp_movement.Errors
use mpp_movement.Session.State.{Outcome}
use mpp_movement.Session.Chain.{unprefixed}
use Request.{ChargeRequest, amount_u64, recipient_str}

-- A text field of a JSON object.
abbrev pub text_at : Text → Json → Option Text
text_at key v = and_then (Json.get key v) as_str

abbrev pub array_at : Text → Json → Option (List Json)
array_at key v = and_then (Json.get key v) as_array

abbrev pub function_of : Json → Text
function_of payload = or_else (text_at (codes "function") payload) []

abbrev pub fa_transfer : Text
fa_transfer = codes "0x1::primary_fungible_store::transfer"

abbrev pub move_transfer : Text
move_transfer = codes "0x1::aptos_account::transfer"

abbrev pub coins_transfer : Text
coins_transfer = codes "0x1::aptos_account::transfer_coins"

abbrev pub coin_transfer : Text
coin_transfer = codes "0x1::coin::transfer"

abbrev pub zeros : ℕ → Text
zeros zero = []
zeros (suc n) = b'0' ∷ zeros n

abbrev pub same_number : Option ℕ → ℕ → Bool
same_number none n = false
same_number (some m) n = m == n

unfoldable pub parse_event_amount : Json → Option ℕ
parse_event_amount data_field = elim (and_then (Json.get (codes "amount") data_field) as_u64) [
  | some n ↦ some n
  | none ↦ and_then (text_at (codes "amount") data_field) parse_u64
]

-- `trim_start_matches('0')`.
unfoldable pub skip_zeros : Text → Text
skip_zeros [] = []
skip_zeros (c ∷ s) = elim (c == b'0') [ true ↦ skip_zeros s | false ↦ c ∷ s ]

unfoldable pub is_native_move : Text → Bool
is_native_move currency = eq_ignore_ascii_case (skip_zeros (unprefixed currency)) (codes "a")

abbrev pub is_coin_function : Text → Bool
is_coin_function function = text_eq function coins_transfer || text_eq function coin_transfer

abbrev pub names_coin : Json → Bool
names_coin a = elim (as_str a) [
  | none ↦ false
  | some s ↦ contains (codes "aptos_coin::AptosCoin") s
]

abbrev pub first_text : Option (List Json) → Option Text
first_text none = none
first_text (some []) = none
first_text (some (v ∷ vs)) = as_str v

abbrev pub wrong_coin : Option (List Json) → Bool
wrong_coin none = false
wrong_coin (some args) = not (any names_coin args) && not (is_empty args)

abbrev pub is_deposit : Text → Bool
is_deposit event_type =
    contains (codes "::coin::DepositEvent") event_type
    || contains (codes "::fungible_asset::Deposit") event_type

abbrev pub is_fa_transfer : Text → Bool
is_fa_transfer event_type = contains (codes "::fungible_asset::Transfer") event_type

abbrev pub argument : ℕ → List Json → Option Text
argument i arguments = and_then (get_elem? arguments i) as_str

abbrev pub asked_amount : ChargeRequest → Outcome ℕ
asked_amount request = elim (amount_u64 request) [
  | ok n ↦ ok n
  | err e ↦ err (with_code Errors.invalid_amount)
]

abbrev pub asked_recipient : ChargeRequest → Outcome Text
asked_recipient request = elim (recipient_str request) [
  | ok r ↦ ok r
  | err e ↦ err (with_code Errors.invalid_recipient)
]

module _ (to_lowercase : Text → Text) where
  -- Left padding to 64 characters.
  unfoldable pub normalize_address : Text → Text
  normalize_address addr =
      let hex = unprefixed addr in to_lowercase (zeros (64 - length hex) ++ hex)

  unfoldable pub same_address : Text → Text → Bool
  same_address a b = text_eq (normalize_address a) (normalize_address b)

  abbrev pub is_at : Option Text → Text → Bool
  is_at none expected = false
  is_at (some address) expected = same_address address expected

  -- The round of the loop for an event with data.
  abbrev pub event_pays : Text → ℕ → Json → Json → Bool
  event_pays recipient amount event data_field =
      let event_type = or_else (text_at (codes "type") event) [] in
      same_number (parse_event_amount data_field) amount
      && (if is_fa_transfer event_type
          then is_at (text_at (codes "to") data_field) recipient
          else (is_at (and_then (Json.get (codes "guid") event) (text_at (codes "account_address")))
                recipient
              || is_at (text_at (codes "key") event) recipient))

  unfoldable pub matches_event : Text → ℕ → Json → Bool
  matches_event recipient amount event =
      let event_type = or_else (text_at (codes "type") event) [] in
      if not (is_deposit event_type) && not (is_fa_transfer event_type)
      then false
      else elim (Json.get (codes "data") event) [
        | none ↦ false
        | some data_field ↦ event_pays recipient amount event data_field
      ]

  unfoldable pub verify_transfer_events : List Json → Text → ℕ → Bool
  verify_transfer_events events recipient amount = any (matches_event recipient amount) events

  -- A metadata argument that is there must be the currency.
  abbrev pub metadata_fits : Option (List Json) → Text → Outcome (Unit {0})
  metadata_fits arguments currency = elim (first_text arguments) [
    | none ↦ ok tt
    | some metadata ↦ if same_address metadata currency then ok tt else err plain
  ]

  unfoldable pub payload_currency : Json → Text → Outcome (Unit {0})
  payload_currency payload currency =
      let function = function_of payload in
      if text_eq function fa_transfer
      then metadata_fits (array_at (codes "arguments") payload) currency
      else if text_eq function move_transfer
      then (if is_native_move currency then ok tt else err plain)
      else if is_coin_function function && is_native_move currency
      then (if wrong_coin (array_at (codes "type_arguments") payload) then err plain else ok tt)
      else ok tt

  unfoldable pub verify_payload_currency : Json → Text → Outcome (Unit {0})
  verify_payload_currency tx currency = elim (Json.get (codes "payload") tx) [
    | none ↦ ok tt
    | some payload ↦ payload_currency payload currency
  ]

  -- Where the recipient and the amount stand among the arguments of a known function.
  unfoldable pub argument_places : Text → List Json → Text → Outcome (ℕ × ℕ)
  argument_places function arguments currency =
      if text_eq function move_transfer || is_coin_function function
      then ok (0, 1)
      else if text_eq function fa_transfer
      then (metadata_fits (some arguments) currency >> ok (1, 2))
      else err plain

  unfoldable pub verify_payload_fallback : Json → Text → Text → ℕ → Outcome (Unit {0})
  verify_payload_fallback tx currency expected_recipient expected_amount = do
    payload ← ok_or (Json.get (codes "payload") tx) plain
    arguments ← ok_or (array_at (codes "arguments") payload) plain
    places ← argument_places (function_of payload) arguments currency
    require (ltb places.1 (length arguments)) plain
    let recipient = or_else (argument places.0 arguments) []
    require (same_address recipient expected_recipient) (with_code Errors.invalid_recipient)
    let amount = or_else (and_then (argument places.1 arguments) parse_u64) 0
    require (amount == expected_amount) (with_code Errors.invalid_amount)
    ok tt

  -- The checks on a transaction that the API knows.
  unfoldable pub verify_transaction : Json → ChargeRequest → Outcome (Unit {0})
  verify_transaction body request = do
    let tx_type = or_else (text_at (codes "type") body) []
    require (not (text_eq tx_type (codes "pending_transaction"))) pending
    let success = or_else (and_then (Json.get (codes "success") body) as_bool) false
    require success (with_code transaction_failed)
    amount ← asked_amount request
    recipient ← asked_recipient request
    verify_payload_currency body request.currency
    elim (array_at (codes "events") body) [
      | none ↦ verify_payload_fallback body request.currency recipient amount
      | some events ↦
          if verify_transfer_events events recipient amount
          then ok tt
          else verify_payload_fallback body request.currency recipient amount
    ]
