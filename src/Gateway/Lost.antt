-- ===== src/Gateway/Lost.antt =====
-- src/client/fetch.rs, src/server/axum.rs and src/server/middleware.rs: answers that end an exchange
-- unserved.
use mpp_movement.Prelude.{
  true, ◌≡◌, refl, ap, ◌∙◌, none, some, ok, err, Option, Result, or_else, and_then,
}
use mpp_movement.Text.{Text}
use mpp_movement.Challenge.Types.{Codec, PaymentChallenge, Receipt}
use mpp_movement.Headers.{extract_payment_scheme}
use mpp_movement.Headers.Tokens.{Tokens}
use mpp_movement.Gateway.{
  HttpTypes, IsHeaderMap, Request, Response, auth_header, authorization_header, bare_response,
}
use mpp_movement.Gateway.Layer.{PaymentVerifier, call_service}
use mpp_movement.Gateway.Extractor.{
  ChargeChallenger, ChargeConfig, from_request_parts, rejection_response, payment_required_response,
  paid_route,
}
use mpp_movement.Gateway.Fetch.{
  PaymentProvider, missing_challenge, read_response, send_with_payment,
}
use mpp_movement.Gateway.Paying.{HasPaid, fetch_again}

module _ (http : HttpTypes) (lawful : IsHeaderMap http) (codec : Codec) (tokens : Tokens) where
  first_kept : {V : Type 0} (o : Option V) (own v : V) → o ≡ some own → some (or_else o v) ≡ o
  first_kept none own v h = cc
  first_kept (some w) own v h = refl

  -- The header behind another is not seen.
  appended_unseen :
      (req : Request http) (own v : http.HeaderValue)
      → http.get authorization_header req.headers ≡ some own
      → auth_header http (record req { headers = http.append authorization_header v req.headers })
        ≡ auth_header http req
  unfolding auth_header
  appended_unseen req own v held =
      ap (λ o. and_then (and_then o http.to_str) extract_payment_scheme)
        (lawful.get-append authorization_header v req.headers ∙ first_kept _ own v held)

  module _ {W P : Type 0} (challenger : ChargeChallenger W) (config : ChargeConfig)
      (handler : Receipt → Response http) (provider : PaymentProvider P) where
    abbrev route : Request http → W → Option (Response http) × W
    route = paid_route http tokens challenger config handler

    pub asked_again :
        (req : Request http) (c : PaymentChallenge) (w : W)
        → challenger.challenge config.amount config.description ≡ some c
        → auth_header http req ≡ none
        → route req w ≡ (some (payment_required_response http c), w)
    unfolding from_request_parts rejection_response
    asked_again req c w made bare = rw (bare) (rw (made) refl)

    -- A request with an `Authorization` header of another scheme is never served by `send_with_payment`:
    -- once the provider has paid, the credential goes out behind that header, where the route does not
    -- see it, and the client is asked to pay again.
    pub own_authorization_unserved :
        (req : Request http) (own v : http.HeaderValue) (c : PaymentChallenge) (w : W) (p paid : P)
        → challenger.challenge config.amount config.description ≡ some c
        → http.get authorization_header req.headers ≡ some own
        → auth_header http req ≡ none
        → HasPaid http codec tokens provider route req w w p paid v
        → send_with_payment http codec tokens provider route true req w p
          ≡ (ok (payment_required_response http c), (w, paid))
    own_authorization_unserved req own v c w p paid made held bare h =
        fetch_again http codec tokens provider route req w w w p paid v _ h
          (asked_again _ c w made (appended_unseen req own v held ∙ bare))

  -- A credential that the tower layer's verifier refuses is answered with status 402 and no challenge,
  -- so that the client has nothing to pay.
  pub refused_unchallenged :
      {V S E N P : Type 0} (verifier : PaymentVerifier V)
      (inner : Request http → S → Result E (Response http) × S) (provider : PaymentProvider P)
      (send : Request http → N → Option (Response http) × N) (req : Request http) (v : V) (s : S)
      (credential e : Text)
      → auth_header http req ≡ some credential
      → (verifier.verify credential v).0 ≡ err e
      → (resp : Response http) × ((call_service http verifier inner req v s).0 ≡ ok resp)
        × (resp.status ≡ 402)
        × (read_response http codec tokens provider send resp ≡ err missing_challenge)
  unfolding call_service read_response
  refused_unchallenged verifier inner provider send req v s credential e h refused = (
    bare_response http 402,
    rw (h) (rw (refused) refl),
    refl,
    rw (lawful.get-empty _, read_response) refl,
  )
