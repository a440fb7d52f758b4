-- ===== src/Gateway/EndToEnd.antt =====
-- A charge from src/client/fetch.rs to src/server/axum.rs and back: the client of
-- src/client/movement/mod.rs pays, and src/protocol/methods/movement/method.rs looks the transfer up.
use mpp_movement.Prelude.{ℕ, true, ◌∙◌, ◌≡◌, refl, ap, none, some, Option, Result, ok, to_option}
use mpp_movement.Text.{Text, codes, text_eq}
use mpp_movement.Text.Equality.{text_eq_refl}
use mpp_movement.Text.Number.{parse_u64}
use mpp_movement.Json.{Json}
use mpp_movement.Challenge.Types.{Codec, PaymentChallenge, PaymentCredential, Receipt, new_receipt}
use mpp_movement.Charge.Request.{ChargeRequest}
use mpp_movement.Charge.Method.{ChargeCrates, verify_charge}
use mpp_movement.Client.{EntryFunctionPayload}
use mpp_movement.Client.Charging
use mpp_movement.Client.Charging.{ChargeError, build_transfer_payload, pay_charge}
use mpp_movement.Client.Charged.{
  IsRecorded, ReadsHash, paid_credential, lookup_url, pay_charge_lem, verify_charge_lem,
}
use mpp_movement.Headers.{format_www_authenticate}
use mpp_movement.Headers.RoundTrip.{IsPresentable}
use mpp_movement.Headers.Tokens.{Tokens}
use mpp_movement.Session.State.{Store}
use mpp_movement.Session.Effects.{Rest, http_get, answer}
use mpp_movement.Server.{Formats, Mpp}
use mpp_movement.Server.Gate.{IsCurrent}
use mpp_movement.Server.Issued.{issued_intent}
use mpp_movement.Gateway.{
  HttpTypes, IsHeaderMap, IsCarried, Request, Response, authorization_header,
}
use mpp_movement.Gateway.Extractor.{
  ChargeConfig, mpp_challenge, mpp_challenger, with_receipt, paid_route,
}
use mpp_movement.Gateway.Fetch.{PaymentProvider, HttpError, send_with_payment, handle}
use mpp_movement.Gateway.Carrying.{IsSendable}
use mpp_movement.Gateway.Served.{challenge_made, fetch-IsServed}

-- `MovementProvider` as a provider without a state.
abbrev pub charge_provider :
    (Text → Option ChargeRequest)
    → (EntryFunctionPayload → Option Text)
    → PaymentProvider (Unit {0})
charge_provider decode_request submit = record {
  supports = Charging.supports;
  pay = λ c u. (to_option (Charging.pay decode_request submit c), u);
}

pay_of_intent :
    (decode_request : Text → Option ChargeRequest) (submit : EntryFunctionPayload → Option Text)
    (c : PaymentChallenge) (credential : PaymentCredential)
    → c.intent ≡ codes "charge"
    → pay_charge decode_request submit c ≡ ok credential
    → Charging.pay decode_request submit c ≡ ok credential
unfolding Charging.pay
pay_of_intent decode_request submit c credential charges paid =
    let same : text_eq c.intent (codes "charge") ≡ true =
      ap (λ t. text_eq t (codes "charge")) charges ∙ text_eq_refl (codes "charge") in
    rw (same) paid

module _ (http : HttpTypes) (lawful : IsHeaderMap http) (codec : Codec) (tokens : Tokens)
    (formats : Formats) (crates : ChargeCrates) (rest : Rest) (rest_url : Text) (mpp : Mpp)
    (config : ChargeConfig) (handler : Receipt → Response http)
    (submit : EntryFunctionPayload → Option Text) where
  abbrev pub charging_route : Request http → Store → Option (Response http) × Store
  charging_route =
      paid_route http tokens
        (mpp_challenger codec formats tokens rest (verify_charge crates rest_url) mpp) config
        handler

  -- The receipt for a transaction.
  abbrev pub receipt_for : Text → Receipt
  receipt_for tx_hash = new_receipt crates.now_iso8601 (codes "movement") tx_hash

  -- What the chain and serde are to do: the request decodes to one of a u64 amount with a recipient,
  -- the transfer is submitted and recorded, and its hash is read back.
  pub record IsTransferred (c : PaymentChallenge) (tx_hash : Text) : Type 0 where
    pub request : ChargeRequest
    pub decoded : formats.decode_charge c.request ≡ some request
    pub amount : ℕ
    pub priced : parse_u64 request.amount ≡ some amount
    pub recipient : Text
    pub payee : request.recipient ≡ some recipient
    pub submitted : submit (build_transfer_payload request.currency recipient amount) ≡ some tx_hash
    pub tx : Json
    pub found : rest (http_get (lookup_url rest_url tx_hash)) ≡ answer 200 (some tx)
    pub recorded : IsRecorded tx (build_transfer_payload request.currency recipient amount)
    pub read : ReadsHash crates tx_hash

  -- A request without an `Authorization` header is paid for and served: where the route's challenge and
  -- the client's credential can be written in headers, the challenge has not expired, and the
  -- transfer that the client makes of it is submitted and shown by the REST API, the client gets
  -- the handler's response with the receipt for its transaction, by `send_with_payment` and by the
  -- middleware alike, and the server's store stays as it is.
  pub charged_fetch-IsServed :
      (req : Request http) (c : PaymentChallenge) (tx_hash : Text) (store : Store)
      → http.get authorization_header req.headers ≡ none
      → mpp_challenge codec formats tokens rest
          (verify_charge crates rest_url)
          mpp
          config.amount
          config.description
        ≡ some c
      → IsPresentable codec c
      → ((t : Text) → format_www_authenticate c ≡ ok t → IsCarried http t)
      → IsCurrent codec formats c.expires
      → IsTransferred c tx_hash
      → IsSendable http lawful codec tokens (paid_credential crates c tx_hash)
      → let served : Result HttpError (Response http) × (Store × Unit {0}) = (
        ok (with_receipt http tokens (receipt_for tx_hash) (handler (receipt_for tx_hash))),
        (store, tt),
      ) in
        let provider = charge_provider formats.decode_charge submit in
        (send_with_payment http codec tokens provider charging_route true req store tt ≡ served)
        × (handle http codec tokens provider charging_route true req store tt ≡ served)
  charged_fetch-IsServed req c tx_hash store bare made presentable carries current w sendable =
      let method = verify_charge crates rest_url in
      let issued =
        challenge_made http lawful codec tokens formats rest method mpp config.amount
          config.description c made in
      let charges = issued_intent codec formats mpp config.amount _ c issued in
      let paid =
        pay_of_intent formats.decode_charge submit c (paid_credential crates c tx_hash) charges (
          pay_charge_lem crates formats.decode_charge submit c w.request w.recipient tx_hash
            w.amount w.decoded w.priced w.payee w.submitted) in
      fetch-IsServed http lawful codec tokens formats rest method mpp config handler
        (charge_provider formats.decode_charge submit) req c (paid_credential crates c tx_hash)
        (receipt_for tx_hash) store store tt tt bare made presentable carries
        (ap (λ r. (to_option r, tt)) paid) sendable
        (record {
          echoed = refl;
          request = w.request;
          decoded = w.decoded;
          current = current;
          accepted =
              verify_charge_lem crates c w.request w.recipient tx_hash w.amount rest rest_url w.tx
                store w.priced w.payee w.found w.recorded w.read;
        })
