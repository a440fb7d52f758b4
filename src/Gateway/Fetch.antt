-- ===== src/Gateway/Fetch.antt =====
-- src/client/fetch.rs, src/client/middleware.rs and src/client/provider.rs: requests that are paid
-- for when the answer asks for it. What becomes of a request that is sent is a parameter.
use mpp_movement.Prelude.{
  ℕ, Bool, List, [], ◌∷◌, Option, none, some, Result, ok, err, ◌==◌, if◌then◌else◌, any, find,
}
use mpp_movement.Prelude
use mpp_movement.Text.{Text}
use mpp_movement.Challenge.Types.{Codec, PaymentChallenge, PaymentCredential}
use mpp_movement.Headers.{parse_www_authenticate}
use mpp_movement.Headers.Tokens.{Tokens, format_authorization}
use mpp_movement.Gateway.{
  HttpTypes, Request, Response, www_authenticate_header, authorization_header,
}

-- The variants of `HttpError`, without the texts.
pub data HttpError : Type 0 where
  missing_challenge : HttpError
  invalid_challenge : HttpError
  invalid_credential : HttpError
  clone_failed : HttpError
  payment : HttpError
  request : HttpError

-- The trait `PaymentProvider`, of which `pay` may change a state.
pub record PaymentProvider (P : Type 0) : Type 0 where
  pub supports : Text → Text → Bool
  pub pay : PaymentChallenge → P → Option PaymentCredential × P

module _ {P : Type 0} where
  unfoldable pub has_support : List (PaymentProvider P) → Text → Text → Bool
  has_support providers method intent = any (λ p. p.supports method intent) providers

  abbrev pub pay_by :
      Option (PaymentProvider P) → PaymentChallenge → P → Option PaymentCredential × P
  pay_by none challenge s = (none, s)
  pay_by (some p) challenge s = p.pay challenge s

  -- `MultiProvider::pay`: by the first provider that supports the challenge.
  unfoldable pub pay_first :
      List (PaymentProvider P) → PaymentChallenge → P → Option PaymentCredential × P
  pay_first providers challenge s =
      pay_by (find (λ p. p.supports challenge.method challenge.intent) providers) challenge s

  abbrev pub multi_provider : List (PaymentProvider P) → PaymentProvider P
  multi_provider providers = record { supports = has_support providers; pay = pay_first providers }

module _ (http : HttpTypes) (codec : Codec) (tokens : Tokens) {N P : Type 0}
    (provider : PaymentProvider P) (send : Request http → N → Option (Response http) × N) where
  open http use {get, insert, append, from_str, to_str}

  abbrev pub Fetched : Type 0
  Fetched = Result HttpError (Response http) × (N × P)

  abbrev pub sent : Option (Response http) → Result HttpError (Response http)
  sent r = Prelude.ok_or r request

  -- The challenge of a response.
  unfoldable pub read_response : Response http → Result HttpError PaymentChallenge
  read_response resp = elim (get www_authenticate_header resp.headers) [
    | none ↦ err missing_challenge
    | some v ↦ elim (to_str v) [
      | none ↦ err invalid_challenge
      | some www_auth ↦
          Prelude.ok_or (Prelude.to_option (parse_www_authenticate codec www_auth))
            invalid_challenge
    ]
  ]

  -- The text of the header, as far as it can be written.
  abbrev pub credential_text : Option PaymentCredential → Result HttpError Text
  credential_text none = err payment
  credential_text (some credential) =
      Prelude.ok_or (Prelude.to_option (format_authorization tokens credential)) invalid_credential

  -- A header that reqwest adds behind those of the request; it fails when the request is sent where the
  -- text is not a header's.
  abbrev pub send_with : Request http → Option http.HeaderValue → N → P → Fetched
  send_with req none n p = (err request, (n, p))
  send_with req (some v) n p =
      let (resp, n') =
        send (record req { headers = append authorization_header v req.headers }) n in
      (sent resp, (n', p))

  abbrev pub send_again : Request http → Result HttpError Text → N → P → Fetched
  send_again req (err e) n p = (err e, (n, p))
  send_again req (ok auth) n p = send_with req (from_str auth) n p

  -- With the credential of the provider.
  abbrev pub retry : Request http → Result HttpError PaymentChallenge → N → P → Fetched
  retry req (err e) n p = (err e, (n, p))
  retry req (ok challenge) n p =
      let (credential, p') = provider.pay challenge p in
      send_again req (credential_text credential) n p'

  abbrev pub settle_response : Request http → Option (Response http) → N → P → Fetched
  settle_response req none n p = (err request, (n, p))
  settle_response req (some resp) n p =
      if resp.status == 402 then retry req (read_response resp) n p else (ok resp, (n, p))

  -- `send_with_payment`, where `clones` tells whether the request can be cloned.
  unfoldable pub send_with_payment : Bool → Request http → N → P → Fetched
  send_with_payment clones req n p =
      if clones
      then (let (resp, n') = send req n in settle_response req resp n' p)
      else (err clone_failed, (n, p))

  abbrev pub send_replaced : Request http → Option http.HeaderValue → N → P → Fetched
  send_replaced req none n p = (err invalid_credential, (n, p))
  send_replaced req (some v) n p =
      let (resp, n') =
        send (record req { headers = insert authorization_header v req.headers }) n in
      (sent resp, (n', p))

  abbrev pub replace_again : Request http → Result HttpError Text → N → P → Fetched
  replace_again req (err e) n p = (err e, (n, p))
  replace_again req (ok auth) n p = send_replaced req (from_str auth) n p

  abbrev pub handle_challenge : Request http → Result HttpError PaymentChallenge → N → P → Fetched
  handle_challenge req (err e) n p = (err e, (n, p))
  handle_challenge req (ok challenge) n p =
      let (credential, p') = provider.pay challenge p in
      replace_again req (credential_text credential) n p'

  abbrev pub handle_response : Bool → Request http → Option (Response http) → N → P → Fetched
  handle_response clones req none n p = (err request, (n, p))
  handle_response clones req (some resp) n p =
      if resp.status == 402
      then (if clones
          then handle_challenge req (read_response resp) n p
          else (err clone_failed, (n, p)))
      else (ok resp, (n, p))

  -- `PaymentMiddleware::handle`: the header replaces those of the request.
  unfoldable pub handle : Bool → Request http → N → P → Fetched
  handle clones req n p = let (resp, n') = send req n in handle_response clones req resp n' p
