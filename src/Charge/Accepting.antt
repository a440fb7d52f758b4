-- ===== src/Charge/Accepting.antt =====
-- Transactions that the checks of src/protocol/methods/movement/method.rs accept.
use mpp_movement.Prelude.{
  or_else, and_then, ℕ, ◌^◌, ◌<◌, ◌≡◌, refl, ap, ◌∙◌, true, false, List, [], ◌∷◌, none, some, ok,
  ==_refl,
}
use mpp_movement.Text.{Text, codes, text_eq}
use mpp_movement.Text.Equality.{text_eq_refl}
use mpp_movement.Text.Number.{parse_u64, u64_bound, to_string, parse_uint-to_string}
use mpp_movement.Json
use mpp_movement.Json.{Json, as_bool, obj, field, end, str, bool, arr, item, nil}
use mpp_movement.Charge.{
  asked_amount, asked_recipient, text_at, array_at, function_of, fa_transfer, move_transfer,
  is_coin_function, same_address, normalize_address, verify_transfer_events, verify_transaction,
  verify_payload_currency, payload_currency, argument_places, metadata_fits,
  verify_payload_fallback,
}
use mpp_movement.Charge.Request.{ChargeRequest}

-- The transaction of a transfer of a fungible asset.
abbrev pub fa_payment : Text → Text → Text → Json
fa_payment currency recipient amount = obj (
    field (codes "type") (str (codes "user_transaction")) (
      field (codes "success") (bool true) (
        field (codes "payload")
          (obj (
            field (codes "function") (str fa_transfer) (
              field (codes "arguments")
                (arr (item (str currency) (item (str recipient) (item (str amount) nil)))) end)))
          end)))

module _ (to_lowercase : Text → Text) where
  -- The checks that come before the events.
  record IsAsked (tx : Json) (request : ChargeRequest) (recipient : Text) (amount : ℕ)
      : Type 0 where
    typed : text_eq (or_else (text_at (codes "type") tx) []) (codes "pending_transaction") ≡ false
    good : and_then (Json.get (codes "success") tx) as_bool ≡ some true
    asked : asked_amount request ≡ ok amount
    asked_for : asked_recipient request ≡ ok recipient
    fits : verify_payload_currency to_lowercase tx request.currency ≡ ok tt

  by_events :
      (tx : Json) (request : ChargeRequest) (recipient : Text) (amount : ℕ) (events : List Json)
      → IsAsked tx request recipient amount
      → array_at (codes "events") tx ≡ some events
      → verify_transfer_events to_lowercase events recipient amount ≡ true
      → verify_transaction to_lowercase tx request ≡ ok tt
  unfolding verify_transaction
  by_events tx request recipient amount events i listed matched =
      rw (i.typed, i.good)
        (rw (i.asked) (rw (i.asked_for) (rw (i.fits) (rw (listed) (rw (matched) refl)))))

  by_payload :
      (tx : Json) (request : ChargeRequest) (recipient : Text) (amount : ℕ)
      → IsAsked tx request recipient amount
      → array_at (codes "events") tx ≡ none
      → verify_payload_fallback to_lowercase tx request.currency recipient amount ≡ ok tt
      → verify_transaction to_lowercase tx request ≡ ok tt
  unfolding verify_transaction
  by_payload tx request recipient amount i listed fallback =
      rw (i.typed, i.good)
        (rw (i.asked) (rw (i.asked_for) (rw (i.fits) (rw (listed) (rw (fallback) refl)))))

  unknown_function_fits :
      (tx payload : Json) (currency : Text)
      → Json.get (codes "payload") tx ≡ some payload
      → text_eq (function_of payload) fa_transfer ≡ false
      → text_eq (function_of payload) move_transfer ≡ false
      → is_coin_function (function_of payload) ≡ false
      → verify_payload_currency to_lowercase tx currency ≡ ok tt
  unfolding verify_payload_currency payload_currency
  unknown_function_fits tx payload currency paid f g c =
      rw (paid, verify_payload_currency) (rw (f, g, payload_currency) (rw (c) refl))

  -- A transaction whose payload calls a function that the code does not know is accepted for a
  -- request of any currency, where it has succeeded, is not pending, and one of its events, from a
  -- module of any name that has the text "::fungible_asset::Deposit" in it, matches the recipient
  -- and the amount.
  pub unknown_function_pays :
      (tx payload : Json) (request : ChargeRequest) (events : List Json) (recipient : Text)
      (amount : ℕ)
      → text_eq (or_else (text_at (codes "type") tx) []) (codes "pending_transaction") ≡ false
      → and_then (Json.get (codes "success") tx) as_bool ≡ some true
      → Json.get (codes "payload") tx ≡ some payload
      → text_eq (function_of payload) fa_transfer ≡ false
      → text_eq (function_of payload) move_transfer ≡ false
      → is_coin_function (function_of payload) ≡ false
      → array_at (codes "events") tx ≡ some events
      → verify_transfer_events to_lowercase events recipient amount ≡ true
      → parse_u64 request.amount ≡ some amount
      → request.recipient ≡ some recipient
      → verify_transaction to_lowercase tx request ≡ ok tt
  unknown_function_pays tx payload request events recipient amount typed good paid f g c listed
        matched asked asked_for =
      by_events tx request recipient amount events
        (record {
          typed = typed;
          good = good;
          asked = rw (asked, asked_amount) refl;
          asked_for = rw (asked_for, asked_recipient) refl;
          fits = unknown_function_fits tx payload request.currency paid f g c;
        })
        listed matched

  metadata-fits_refl :
      (currency : Text) (rest : List Json)
      → metadata_fits to_lowercase (some (str currency ∷ rest)) currency ≡ ok tt
  unfolding same_address
  metadata-fits_refl currency rest =
      rw (text_eq_refl (normalize_address to_lowercase currency)) refl

  fa_payment_fits :
      (currency recipient amount : Text)
      → verify_payload_currency to_lowercase (fa_payment currency recipient amount) currency ≡ ok tt
  unfolding verify_payload_currency payload_currency
  fa_payment_fits currency recipient amount =
      metadata-fits_refl currency (str recipient ∷ str amount ∷ [])

  fa_payment_falls_back :
      (currency recipient amount : Text) (n : ℕ)
      → parse_u64 amount ≡ some n
      → verify_payload_fallback to_lowercase
          (fa_payment currency recipient amount)
          currency
          recipient
          n
        ≡ ok tt
  unfolding verify_payload_fallback argument_places same_address
  fa_payment_falls_back currency recipient amount n parsed =
      rw (text_eq_refl (normalize_address to_lowercase currency)) (
        rw (text_eq_refl (normalize_address to_lowercase recipient))
          (rw (parsed) (rw (==_refl n) refl)))

  -- A transfer by `primary_fungible_store::transfer` of the asked token, to the asked recipient, of
  -- the asked amount, where that is a u64, is accepted from its payload, without any event.
  fa_payment_accepted :
      (request : ChargeRequest) (recipient : Text) (n : ℕ)
      → n < 2 ^ 64
      → request.amount ≡ to_string n
      → request.recipient ≡ some recipient
      → verify_transaction to_lowercase
          (fa_payment request.currency recipient request.amount)
          request
        ≡ ok tt
  fa_payment_accepted request recipient n small asked asked_for =
      by_payload (fa_payment request.currency recipient request.amount) request recipient n
        (record {
          typed = refl;
          good = refl;
          asked = rw (parsed, asked_amount) refl;
          asked_for = rw (asked_for, asked_recipient) refl;
          fits = fa_payment_fits request.currency recipient request.amount;
        })
        refl (fa_payment_falls_back request.currency recipient request.amount n parsed)
    where
      parsed : parse_u64 request.amount ≡ some n
      parsed = ap parse_u64 asked ∙ parse_uint-to_string u64_bound n small
