-- ===== src/Gateway/Served.antt =====
-- A client of src/client/fetch.rs or src/client/middleware.rs before a route of src/server/axum.rs.
use mpp_movement.Prelude.{
  ◌≡◌, refl, ap, ◌∙◌, true, ◌++◌, none, some, Option, ok, Result, err, to_option, or_else,
}
use mpp_movement.Text.{Text, codes}
use mpp_movement.Challenge.{to_echo}
use mpp_movement.Challenge.Types.{Codec, PaymentChallenge, PaymentCredential, Receipt}
use mpp_movement.Charge.Request.{ChargeRequest}
use mpp_movement.Headers.{format_www_authenticate, digest_fits}
use mpp_movement.Headers.RoundTrip.{IsPresentable, parse_www_authenticate-format_www_authenticate}
use mpp_movement.Headers.Tokens.{Tokens}
use mpp_movement.Session.State.{Store}
use mpp_movement.Session.Effects.{Rest, Prog, run, lift, ◌>>=◌}
use mpp_movement.Server.{Formats, Mpp, verify, verify_credential}
use mpp_movement.Server.Gate.{IsCurrent}
use mpp_movement.Server.Issue.{movement_charge_with_options}
use mpp_movement.Server.Issued.{issued_charge_admitted}
use mpp_movement.Gateway.{
  HttpTypes, IsHeaderMap, IsCarried, Request, Response, auth_header, authorization_header,
}
use mpp_movement.Gateway.Extractor.{
  ChargeConfig, mpp_challenger, mpp_challenge, mpp_verify_payment, from_request_parts,
  payment_required_response, rejection_response, with_receipt, paid_route,
}
use mpp_movement.Gateway.Carrying.{
  IsSendable, format_sendable, parse_sendable, auth_header_sent, read_challenge_response,
  required_status,
}
use mpp_movement.Gateway.Paying.{HasPaid, fetch_again, handle_again}
use mpp_movement.Gateway.Fetch.{PaymentProvider, HttpError, send_with_payment, handle}

module _ (http : HttpTypes) (lawful : IsHeaderMap http) (codec : Codec) (tokens : Tokens) where
  -- The payment of a challenge that the server has issued, and what it is worth to the method.
  pub record IsPaidFor (formats : Formats) (rest : Rest)
      (method : PaymentCredential → ChargeRequest → Prog Receipt) (store paid_store : Store)
      (c : PaymentChallenge) (credential : PaymentCredential) (receipt : Receipt) : Type 0 where
    pub echoed : credential.challenge ≡ to_echo c
    pub request : ChargeRequest
    pub decoded : formats.decode_charge c.request ≡ some request
    pub current : IsCurrent codec formats c.expires
    pub accepted : run rest (method credential request) store ≡ (ok receipt, paid_store)

  module _ (formats : Formats) (rest : Rest)
      (method : PaymentCredential → ChargeRequest → Prog Receipt) (mpp : Mpp) where
    pub challenge_made :
        (amount : Text) (description : Option Text) (c : PaymentChallenge)
        → mpp_challenge codec formats tokens rest method mpp amount description ≡ some c
        → movement_charge_with_options codec formats mpp amount
            (record { description = description; external_id = none; expires = none })
          ≡ ok c
    unfolding mpp_challenge
    challenge_made amount description c h = to_option-eq-some _ h
      where
        to_option-eq-some :
            {E A : Type 0} (r : Result E A) {a : A} → to_option r ≡ some a → r ≡ ok a
        to_option-eq-some (ok b) e = cc
        to_option-eq-some (err x) e = cc

    verify_sendable :
        (amount : Text) (description : Option Text) (c : PaymentChallenge)
        (credential : PaymentCredential) (receipt : Receipt) (store paid_store : Store)
        (w : IsSendable http lawful codec tokens credential)
        → mpp_challenge codec formats tokens rest method mpp amount description ≡ some c
        → digest_fits c.digest ≡ true
        → IsPaidFor formats rest method store paid_store c credential receipt
        → mpp_verify_payment codec formats tokens rest method mpp
            (codes "Payment " ++ tokens.base64url_encode w.bytes)
            store
          ≡ (some receipt, paid_store)
    unfolding mpp_verify_payment verify_credential verify run lift ◌>>=◌ to_echo
    verify_sendable amount description c credential receipt store paid_store w made digested paid =
        let digest : digest_fits credential.challenge.digest ≡ true =
          ap (λ e. digest_fits e.digest) paid.echoed ∙ digested in
        let decoded : formats.decode_charge credential.challenge.request ≡ some paid.request =
          ap (λ e. formats.decode_charge e.request) paid.echoed ∙ paid.decoded in
        let gate =
          issued_charge_admitted codec formats mpp amount _ c credential
            (challenge_made amount description c made) paid.echoed paid.current in
        rw (parse_sendable http lawful codec tokens credential w digest)
          (rw (decoded) (rw (gate) (rw (paid.accepted) refl)))

    module _ (config : ChargeConfig) (handler : Receipt → Response http) {P : Type 0}
        (provider : PaymentProvider P) where
      abbrev route : Request http → Store → Option (Response http) × Store
      route =
          paid_route http tokens (mpp_challenger codec formats tokens rest method mpp) config
            handler

      -- A request with the header is served.
      route_paid :
          (req : Request http) (c : PaymentChallenge) (credential : PaymentCredential)
          (receipt : Receipt) (store paid_store : Store)
          (w : IsSendable http lawful codec tokens credential)
          → mpp_challenge codec formats tokens rest method mpp config.amount config.description
            ≡ some c
          → digest_fits c.digest ≡ true
          → IsPaidFor formats rest method store paid_store c credential receipt
          → http.get authorization_header req.headers ≡ some w.carried.value
          → route req store
            ≡ (some (with_receipt http tokens receipt (handler receipt)), paid_store)
      unfolding from_request_parts
      route_paid req c credential receipt store paid_store w made digested paid h =
          rw (auth_header_sent http lawful codec tokens credential w req h) (
            rw
              (verify_sendable config.amount config.description c credential receipt store
                paid_store w made digested paid)
              refl)

      -- A request without one is asked to pay.
      route_unpaid :
          (req : Request http) (c : PaymentChallenge) (store : Store)
          → mpp_challenge codec formats tokens rest method mpp config.amount config.description
            ≡ some c
          → http.get authorization_header req.headers ≡ none
          → route req store ≡ (some (payment_required_response http c), store)
      unfolding from_request_parts auth_header rejection_response
      route_unpaid req c store made bare = rw (bare) (rw (made) refl)

      -- A request without an `Authorization` header comes back from the route served, by
      -- `send_with_payment` and by the middleware alike: where the route's challenge can be written in a
      -- header, the provider pays it with a credential that a header carries, which echoes it, has not
      -- expired, and is accepted by the payment method, the client gets the handler's response with
      -- the receipt.
      pub fetch-IsServed :
          (req : Request http) (c : PaymentChallenge) (credential : PaymentCredential)
          (receipt : Receipt) (store paid_store : Store) (p paid : P)
          → http.get authorization_header req.headers ≡ none
          → mpp_challenge codec formats tokens rest method mpp config.amount config.description
            ≡ some c
          → IsPresentable codec c
          → ((t : Text) → format_www_authenticate c ≡ ok t → IsCarried http t)
          → provider.pay c p ≡ (some credential, paid)
          → IsSendable http lawful codec tokens credential
          → IsPaidFor formats rest method store paid_store c credential receipt
          → let served : Result HttpError (Response http) × (Store × P) =
              (ok (with_receipt http tokens receipt (handler receipt)), (paid_store, paid)) in
            (send_with_payment http codec tokens provider route true req store p ≡ served)
            × (handle http codec tokens provider route true req store p ≡ served)
      fetch-IsServed req c credential receipt store paid_store p paid bare made presentable carries
            pays w worth =
          let (t, f, _) = parse_www_authenticate-format_www_authenticate codec c presentable in
          let v = w.carried.value in
          let has_paid : HasPaid http codec tokens provider route req store store p paid v =
            record {
              resp = payment_required_response http c;
              answered = route_unpaid req c store made bare;
              asks = required_status http lawful codec tokens c t f;
              challenge = c;
              reads =
                  read_challenge_response http lawful codec tokens provider route c presentable
                    carries;
              credential = credential;
              pays = pays;
              auth = codes "Payment " ++ tokens.base64url_encode w.bytes;
              formats = format_sendable http lawful codec tokens credential w;
              written = w.carried.written;
            } in
          (
            fetch_again http codec tokens provider route req store store paid_store p paid v _
                has_paid
                (route_paid
                  (record req { headers = http.append authorization_header v req.headers }) c
                  credential receipt store paid_store w made presentable.digested worth
                  (lawful.get-append authorization_header v req.headers
                    ∙ ap (λ o. some (or_else o v)) bare)),
            handle_again http codec tokens provider route req store store paid_store p paid v _
                has_paid
                (route_paid
                  (record req { headers = http.insert authorization_header v req.headers }) c
                  credential receipt store paid_store w made presentable.digested worth
                  (lawful.get-insert authorization_header v req.headers)),
          )
