-- ===== src/Charge/Sound.antt =====
-- What the checks of src/protocol/methods/movement/method.rs establish of an accepted transaction.
use mpp_movement.Prelude.{
  or_else, and_then, ℕ, ◌≡◌, refl, ◌⊎◌, inl, inr, Bool, true, false, not, List, [], Option, none,
  some, ok, require, bind-eq-ok, require-eq-ok, Bool-cases, Option-cases, Any, any, any_sound,
  if◌then◌else◌, arith,
}
use mpp_movement.Text.{Text, codes, text_eq}
use mpp_movement.Text.Number.{parse_u64}
use mpp_movement.Json
use mpp_movement.Json.{Json, as_bool, as_str}
use mpp_movement.Errors.{pending, with_code, transaction_failed}
use mpp_movement.Charge.{
  text_at, array_at, matches_event, verify_transfer_events, verify_payload_fallback,
  verify_payload_currency, verify_transaction, asked_amount, asked_recipient,
}
use mpp_movement.Charge.Request.{ChargeRequest}
use mpp_movement.Charge.Currency.{FitsCurrency, verify_payload_currency_sound}
use mpp_movement.Charge.Evidence.{IsDeposit, IsTransfer, matches_event_sound, fallback_sound}

module _ (to_lowercase : Text → Text) where
  -- What an accepted transaction is.
  pub record IsPayment (tx : Json) (request : ChargeRequest) : Type 0 where
    pub amount : ℕ
    pub recipient : Text
    pub confirmed :
        text_eq (or_else (text_at (codes "type") tx) []) (codes "pending_transaction") ≡ false
    pub succeeded : and_then (Json.get (codes "success") tx) as_bool ≡ some true
    pub asked : parse_u64 request.amount ≡ some amount
    pub asked_for : request.recipient ≡ some recipient
    pub fits : FitsCurrency to_lowercase tx request.currency
    pub paid :
        ((events : List Json) × (array_at (codes "events") tx ≡ some events)
          × Any (IsDeposit to_lowercase recipient amount) events)
        ⊎ IsTransfer to_lowercase tx recipient amount

  asked_amount-eq-ok :
      (request : ChargeRequest) (n : ℕ)
      → asked_amount request ≡ ok n
      → parse_u64 request.amount ≡ some n
  asked_amount-eq-ok request n h = elim (Option-cases (parse_u64 request.amount)) [
    | inl e ↦ absurd (ground (arith, h, e))
    | inr (m, e) ↦ ground (arith, h, e)
  ]

  asked_recipient-eq-ok :
      (request : ChargeRequest) (t : Text)
      → asked_recipient request ≡ ok t
      → request.recipient ≡ some t
  asked_recipient-eq-ok request t h = elim (Option-cases request.recipient) [
    | inl e ↦ absurd (ground (arith, h, e))
    | inr (m, e) ↦ ground (arith, h, e)
  ]

  or_false : (o : Option Bool) → or_else o false ≡ true → o ≡ some true
  or_false none h = cc
  or_false (some b) h = cc

  paid_sound :
      (tx : Json) (currency recipient : Text) (amount : ℕ) (found : Option (List Json))
      → array_at (codes "events") tx ≡ found
      → elim found [
        | none ↦ verify_payload_fallback to_lowercase tx currency recipient amount
        | some events ↦
            if verify_transfer_events to_lowercase events recipient amount
            then ok tt
            else verify_payload_fallback to_lowercase tx currency recipient amount
      ]
        ≡ ok tt
      → ((events : List Json) × (array_at (codes "events") tx ≡ some events)
          × Any (IsDeposit to_lowercase recipient amount) events)
        ⊎ IsTransfer to_lowercase tx recipient amount
  unfolding verify_transfer_events
  paid_sound tx currency recipient amount none e h =
      inr (fallback_sound to_lowercase tx currency recipient amount h)
  paid_sound tx currency recipient amount (some events) e h =
      elim (Bool-cases (any (matches_event to_lowercase recipient amount) events)) [
        | inl found ↦ inl (
          events,
          e,
          any_sound _ _ (matches_event_sound to_lowercase recipient amount) events found,
        )
        | inr other ↦ inr (fallback_sound to_lowercase tx currency recipient amount (rw other at h))
      ]

  -- A transaction that the charge method accepts for a request is no pending one and has succeeded;
  -- its payload fits the currency as far as the check goes; it has a deposit event, or the payload of a known transfer function, of exactly the amount asked
  -- for (a u64) and to an address that is the recipient's once normalized.
  pub verify_transaction_sound :
      (tx : Json) (request : ChargeRequest)
      → verify_transaction to_lowercase tx request ≡ ok tt
      → IsPayment tx request
  unfolding verify_transaction
  verify_transaction_sound tx request h =
      let (_, c, h1) =
        bind-eq-ok
          (require
            (not (text_eq (or_else (text_at (codes "type") tx) []) (codes "pending_transaction")))
            pending)
          _ h in
      let (_, s, h2) =
        bind-eq-ok
          (require (or_else (and_then (Json.get (codes "success") tx) as_bool) false)
            (with_code transaction_failed))
          _ h1 in
      let (amount, a, h3) = bind-eq-ok (asked_amount request) _ h2 in
      let (recipient, r, h4) = bind-eq-ok (asked_recipient request) _ h3 in
      let (_, f, h5) = bind-eq-ok (verify_payload_currency to_lowercase tx request.currency) _ h4 in
      record {
        amount = amount;
        recipient = recipient;
        confirmed = ground (arith, require-eq-ok _ _ c);
        succeeded = or_false _ (require-eq-ok _ _ s);
        asked = asked_amount-eq-ok request amount a;
        asked_for = asked_recipient-eq-ok request recipient r;
        fits = verify_payload_currency_sound to_lowercase tx request.currency f;
        paid = paid_sound tx request.currency recipient amount _ refl h5;
      }
