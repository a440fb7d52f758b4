-- ===== src/Client/Charged.antt =====
-- A charge that the client of src/client/movement/mod.rs pays, before the checks of
-- src/protocol/methods/movement/method.rs.
use mpp_movement.Prelude.{
  or_else, and_then, ℕ, ◌^◌, ◌<◌, ◌≡◌, refl, ◌∙◌, inl, inr, true, false, Bool-cases, Option-cases,
  [], ◌∷◌, ◌++◌, Option, none, some, ok, arith, ==_refl,
}
use mpp_movement.Text.{Text, codes, text_eq, trim_end_matches}
use mpp_movement.Text.Equality.{text_eq_refl}
use mpp_movement.Text.Number.{parse_u64, to_string, parse_uint-to_string, parse_uint-lt}
use mpp_movement.Json
use mpp_movement.Json.{Json, as_bool, str}
use mpp_movement.Challenge.{to_echo}
use mpp_movement.Challenge.Types.{PaymentChallenge, PaymentCredential, new_receipt}
use mpp_movement.Session.State.{Store}
use mpp_movement.Session.Effects.{Rest, answer, http_get, run, ◌>>=◌, lift, call}
use mpp_movement.Session.Chain.{unprefixed}
use mpp_movement.Charge
use mpp_movement.Charge.{
  text_at, array_at, function_of, normalize_address, same_address, verify_transfer_events,
  verify_transaction, verify_payload_currency, payload_currency, argument_places, metadata_fits,
  verify_payload_fallback, asked_amount, asked_recipient,
}
use mpp_movement.Charge.Request.{ChargeRequest, hash, deserialize, is_hash}
use mpp_movement.Charge.Method.{ChargeCrates, verify_charge, verify_tx_hash, paid_hash, answered}
use mpp_movement.Client.{EntryFunctionPayload}
use mpp_movement.Client.Charging.{is_native_move, build_transfer_payload, hash_payload, pay_charge}

-- What the REST API shows of a submitted transaction that has succeeded, with any events or none.
pub record IsRecorded (tx : Json) (p : EntryFunctionPayload) : Type 0 where
  pub payload : Json
  pub typed : text_eq (or_else (text_at (codes "type") tx) []) (codes "pending_transaction") ≡ false
  pub good : and_then (Json.get (codes "success") tx) as_bool ≡ some true
  pub held : Json.get (codes "payload") tx ≡ some payload
  pub called : text_at (codes "function") payload ≡ some p.function
  pub given : array_at (codes "arguments") payload ≡ some p.arguments

module _ (to_lowercase : Text → Text) where
  -- The two checks that a transfer has to pass.
  abbrev Passes : Json → Text → Text → ℕ → Type 0
  Passes tx currency recipient n =
      (verify_payload_currency to_lowercase tx currency ≡ ok tt)
      × (verify_payload_fallback to_lowercase tx currency recipient n ≡ ok tt)

  native-Passes :
      (tx payload : Json) (currency recipient : Text) (n : ℕ)
      → n < 2 ^ 64
      → Charge.is_native_move currency ≡ true
      → Json.get (codes "payload") tx ≡ some payload
      → text_at (codes "function") payload ≡ some (codes "0x1::aptos_account::transfer")
      → array_at (codes "arguments") payload ≡ some (str recipient ∷ str (to_string n) ∷ [])
      → Passes tx currency recipient n
  unfolding verify_payload_currency payload_currency verify_payload_fallback argument_places
      same_address
  native-Passes tx payload currency recipient n small native held called given = (
    rw (held, verify_payload_currency) (rw (called) (rw (native) refl)),
    rw (held) (
        rw (given) (
          rw (called) (
            rw (text_eq_refl (normalize_address to_lowercase recipient))
              (rw (parse_uint-to_string (2 ^ 64) n small) (rw (==_refl n) refl))))),
  )

  asset-Passes :
      (tx payload : Json) (currency recipient : Text) (n : ℕ)
      → n < 2 ^ 64
      → Json.get (codes "payload") tx ≡ some payload
      → text_at (codes "function") payload ≡ some (codes "0x1::primary_fungible_store::transfer")
      → array_at (codes "arguments") payload
        ≡ some (str currency ∷ str recipient ∷ str (to_string n) ∷ [])
      → Passes tx currency recipient n
  unfolding verify_payload_currency payload_currency verify_payload_fallback argument_places
      same_address
  asset-Passes tx payload currency recipient n small held called given = (
    rw (held, verify_payload_currency)
        (rw (called)
          (rw (given) (rw (text_eq_refl (normalize_address to_lowercase currency)) refl))),
    rw (held) (
        rw (given) (
          rw (called) (
            rw (text_eq_refl (normalize_address to_lowercase currency)) (
              rw (text_eq_refl (normalize_address to_lowercase recipient))
                (rw (parse_uint-to_string (2 ^ 64) n small) (rw (==_refl n) refl)))))),
  )

  transfer-Passes :
      (tx : Json) (currency recipient : Text) (n : ℕ)
      → n < 2 ^ 64
      → IsRecorded tx (build_transfer_payload currency recipient n)
      → Passes tx currency recipient n
  unfolding build_transfer_payload is_native_move Charge.is_native_move
  transfer-Passes tx currency recipient n small r = elim (Bool-cases (is_native_move currency)) [
    | inl native ↦
        native-Passes tx r.payload currency recipient n small native r.held
          (r.called ∙ (rw native refl)) (r.given ∙ (rw native refl))
    | inr other ↦
        asset-Passes tx r.payload currency recipient n small r.held (r.called ∙ (rw other refl))
          (r.given ∙ (rw other refl))
  ]

  -- The checks before the events, and those of the payload behind them.
  transfer_accepted :
      (tx : Json) (request : ChargeRequest) (recipient : Text) (n : ℕ)
      → parse_u64 request.amount ≡ some n
      → request.recipient ≡ some recipient
      → IsRecorded tx (build_transfer_payload request.currency recipient n)
      → verify_transaction to_lowercase tx request ≡ ok tt
  unfolding verify_transaction
  transfer_accepted tx request recipient n asked asked_for r =
      let (fits, falls) =
        transfer-Passes tx request.currency recipient n
          (parse_uint-lt _ request.amount n (omega arith) asked) r in
      rw (r.typed, r.good)
        (rw (asked, asked_amount)
          (rw (asked_for, asked_recipient)
            (rw (fits) (elim (Option-cases (array_at (codes "events") tx)) [
              | inl missing ↦ rw (missing) falls
              | inr (events, listed) ↦
                  rw (listed)
                    (elim (Bool-cases (verify_transfer_events to_lowercase events recipient n)) [
                      | inl matched ↦ rw (matched) refl
                      | inr unmatched ↦ rw (unmatched) falls
                    ])
            ]))))

-- Where a charge's transaction is looked up.
abbrev pub lookup_url : Text → Text → Text
lookup_url rest_url tx_hash =
    trim_end_matches b'/' rest_url ++ (codes "/transactions/by_hash/0x" ++ unprefixed tx_hash)

module _ (crates : ChargeCrates) where
  open crates use {to_lowercase, raw_payload, now_iso8601}

  -- The credential of a client that has paid by a transaction.
  abbrev pub paid_credential : PaymentChallenge → Text → PaymentCredential
  paid_credential challenge tx_hash = record {
    challenge = to_echo challenge;
    source = none;
    payload = hash_payload tx_hash;
  }

  -- What serde reads of the payload that it has written.
  abbrev pub ReadsHash : Text → Type 0
  ReadsHash tx_hash =
      raw_payload (hash_payload tx_hash)
      ≡ some (record { payload_type = hash; signature = none; hash_field = some tx_hash })

  hash_is_paid :
      (challenge : PaymentChallenge) (tx_hash : Text)
      → ReadsHash tx_hash
      → paid_hash crates (paid_credential challenge tx_hash) ≡ ok tx_hash
  unfolding paid_hash deserialize is_hash
  hash_is_paid challenge tx_hash read = rw (read, paid_hash, and_then) refl

  -- The client's side: it submits the transfer that is asked for.
  pub pay_charge_lem :
      (decode_request : Text → Option ChargeRequest) (submit : EntryFunctionPayload → Option Text)
      (challenge : PaymentChallenge) (request : ChargeRequest) (recipient tx_hash : Text) (n : ℕ)
      → decode_request challenge.request ≡ some request
      → parse_u64 request.amount ≡ some n
      → request.recipient ≡ some recipient
      → submit (build_transfer_payload request.currency recipient n) ≡ some tx_hash
      → pay_charge decode_request submit challenge ≡ ok (paid_credential challenge tx_hash)
  unfolding pay_charge
  pay_charge_lem decode_request submit challenge request recipient tx_hash n decoded asked asked_for
        submitted =
      rw (decoded) (rw (asked) (rw (asked_for) (rw (submitted) refl)))

  -- The server's side: it looks the transfer up.
  pub verify_charge_lem :
      (challenge : PaymentChallenge) (request : ChargeRequest) (recipient tx_hash : Text) (n : ℕ)
      (rest : Rest) (rest_url : Text) (tx : Json) (store : Store)
      → parse_u64 request.amount ≡ some n
      → request.recipient ≡ some recipient
      → rest (http_get (lookup_url rest_url tx_hash)) ≡ answer 200 (some tx)
      → IsRecorded tx (build_transfer_payload request.currency recipient n)
      → ReadsHash tx_hash
      → run rest (verify_charge crates rest_url (paid_credential challenge tx_hash) request) store
        ≡ (ok (new_receipt now_iso8601 (codes "movement") tx_hash), store)
  unfolding verify_charge verify_tx_hash answered run ◌>>=◌ lift call
  verify_charge_lem challenge request recipient tx_hash n rest rest_url tx store asked asked_for
        found recorded read =
      rw (hash_is_paid challenge tx_hash read) (
        rw (found, run)
          (rw (transfer_accepted to_lowercase tx request recipient n asked asked_for recorded)
            refl))

  -- A charge that the client pays is accepted: for a request with a u64 amount and a recipient, the
  -- client submits a transfer of its own making, and once the REST API shows it, successful and with
  -- any events or none, the server accepts the client's credential, whose payload serde reads back,
  -- with a receipt for the transaction, and leaves its store alone.
  pub paid_charge-IsAccepted :
      (decode_request : Text → Option ChargeRequest) (submit : EntryFunctionPayload → Option Text)
      (challenge : PaymentChallenge) (request : ChargeRequest) (recipient tx_hash : Text) (n : ℕ)
      (rest : Rest) (rest_url : Text) (tx : Json) (store : Store)
      → decode_request challenge.request ≡ some request
      → parse_u64 request.amount ≡ some n
      → request.recipient ≡ some recipient
      → submit (build_transfer_payload request.currency recipient n) ≡ some tx_hash
      → rest (http_get (lookup_url rest_url tx_hash)) ≡ answer 200 (some tx)
      → IsRecorded tx (build_transfer_payload request.currency recipient n)
      → ReadsHash tx_hash
      → (credential : PaymentCredential) × (pay_charge decode_request submit challenge
          ≡ ok credential)
        × (run rest (verify_charge crates rest_url credential request) store
            ≡ (ok (new_receipt now_iso8601 (codes "movement") tx_hash), store))
  paid_charge-IsAccepted decode_request submit challenge request recipient tx_hash n rest rest_url
        tx store decoded asked asked_for submitted found recorded read =
      (
        paid_credential challenge tx_hash,
        pay_charge_lem decode_request submit challenge request recipient tx_hash n decoded asked
            asked_for submitted,
        verify_charge_lem challenge request recipient tx_hash n rest rest_url tx store asked
            asked_for found recorded read,
      )
