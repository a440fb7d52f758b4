-- ===== src/Gateway/Carrying.antt =====
-- src/protocol/core/headers.rs between src/client/fetch.rs and src/server/axum.rs: credentials and
-- challenges as headers carry them.
use mpp_movement.Prelude.{◌≡◌, refl, sym, ◌∙◌, subst, true, ◌++◌, some, Option, ok, Result}
use mpp_movement.Text.{Text, codes}
use mpp_movement.Challenge.Types.{Bytes, Codec, PaymentChallenge, PaymentCredential}
use mpp_movement.Headers.{format_www_authenticate, parse_www_authenticate, digest_fits}
use mpp_movement.Headers.RoundTrip.{IsPresentable, parse_www_authenticate-format_www_authenticate}
use mpp_movement.Headers.Tokens.{
  Tokens, IsToken, parse_authorization, format_authorization, extract_of_token,
  parse_authorization-format_authorization,
}
use mpp_movement.Gateway.{
  HttpTypes, IsHeaderMap, IsCarried, Request, Response, auth_header, authorization_header,
  www_authenticate_header,
}
use mpp_movement.Gateway.Extractor.{payment_required_response}
use mpp_movement.Gateway.Fetch.{PaymentProvider, read_response}

module _ (http : HttpTypes) (lawful : IsHeaderMap http) (codec : Codec) (tokens : Tokens) where
  -- A credential that an `Authorization` header carries.
  pub record IsSendable (credential : PaymentCredential) : Type 0 where
    pub bytes : Bytes
    pub json : tokens.credential_json credential ≡ some bytes
    pub reads : tokens.credential_from bytes ≡ some credential
    pub token : IsToken tokens bytes
    pub carried : IsCarried http (codes "Payment " ++ tokens.base64url_encode bytes)

  pub format_sendable :
      (credential : PaymentCredential) (w : IsSendable credential)
      → format_authorization tokens credential
        ≡ ok (codes "Payment " ++ tokens.base64url_encode w.bytes)
  unfolding format_authorization
  format_sendable credential w = rw (w.json) refl

  pub parse_sendable :
      (credential : PaymentCredential) (w : IsSendable credential)
      → digest_fits credential.challenge.digest ≡ true
      → parse_authorization tokens (codes "Payment " ++ tokens.base64url_encode w.bytes)
        ≡ ok credential
  parse_sendable credential w digested =
      let (header, f, p) =
        parse_authorization-format_authorization tokens credential w.bytes w.json w.reads w.token
          digested in
      subst (λ t. parse_authorization tokens t ≡ ok credential)
        (ok_injective (sym f ∙ format_sendable credential w)) p
    where
      ok_injective : {E : Type 0} {a b : Text} → ◌≡◌ {A = Result E Text} (ok a) (ok b) → a ≡ b
      ok_injective h = cc

  -- What the server reads of a header that carries it, however it was put there.
  pub auth_header_sent :
      (credential : PaymentCredential) (w : IsSendable credential) (req : Request http)
      → http.get authorization_header req.headers ≡ some w.carried.value
      → auth_header http req ≡ some (codes "Payment " ++ tokens.base64url_encode w.bytes)
  unfolding auth_header
  auth_header_sent credential w req h = rw (h) (
      rw (w.carried.reads) (
        extract_of_token tokens (tokens.base64url_encode w.bytes) w.token.filled w.token.unbroken
          w.token.single))

  read_found :
      {N P : Type 0} (provider : PaymentProvider P)
      (send : Request http → N → Option (Response http) × N) (resp : Response http) (t : Text)
      (v : http.HeaderValue) (c : PaymentChallenge)
      → http.get www_authenticate_header resp.headers ≡ some v
      → http.to_str v ≡ some t
      → parse_www_authenticate codec t ≡ ok c
      → read_response http codec tokens provider send resp ≡ ok c
  unfolding read_response
  read_found provider send resp t v c found reads parses =
      rw (found, read_response) (rw (reads) (rw (parses) refl))

  challenge_found :
      (c : PaymentChallenge) (t : Text) (carried : IsCarried http t)
      → format_www_authenticate c ≡ ok t
      → http.get www_authenticate_header (payment_required_response http c).headers
        ≡ some carried.value
  unfolding payment_required_response
  challenge_found c t carried f =
      rw (f, payment_required_response)
        (lawful.get-insert_other (codes "content-type") www_authenticate_header _ _ refl
          ∙ rw (carried.written)
              (lawful.get-insert www_authenticate_header carried.value http.empty))

  -- The client reads the challenge of the route.
  pub read_challenge_response :
      {N P : Type 0} (provider : PaymentProvider P)
      (send : Request http → N → Option (Response http) × N) (c : PaymentChallenge)
      → IsPresentable codec c
      → ((t : Text) → format_www_authenticate c ≡ ok t → IsCarried http t)
      → read_response http codec tokens provider send (payment_required_response http c) ≡ ok c
  read_challenge_response provider send c presentable carries =
      let (t, f, p) = parse_www_authenticate-format_www_authenticate codec c presentable in
      let carried = carries t f in
      read_found provider send _ t carried.value c (challenge_found c t carried f) carried.reads p

  pub required_status :
      (c : PaymentChallenge) (t : Text)
      → format_www_authenticate c ≡ ok t
      → (payment_required_response http c).status ≡ 402
  unfolding payment_required_response
  required_status c t f = rw (f, payment_required_response) refl
