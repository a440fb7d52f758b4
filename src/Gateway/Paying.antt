-- ===== src/Gateway/Paying.antt =====
-- src/client/fetch.rs and src/client/middleware.rs: a request that is asked to pay, and pays.
use mpp_movement.Prelude.{◌≡◌, refl, true, Option, some, ok}
use mpp_movement.Text.{Text}
use mpp_movement.Challenge.Types.{Codec, PaymentChallenge, PaymentCredential}
use mpp_movement.Headers.Tokens.{Tokens, format_authorization}
use mpp_movement.Gateway.{HttpTypes, Request, Response, authorization_header}
use mpp_movement.Gateway.Fetch.{PaymentProvider, read_response, send_with_payment, handle, sent}

module _ (http : HttpTypes) (codec : Codec) (tokens : Tokens) {N P : Type 0}
    (provider : PaymentProvider P) (send : Request http → N → Option (Response http) × N) where
  -- The first answer asks, and the provider has paid.
  pub record HasPaid (req : Request http) (n n' : N) (p paid : P) (v : http.HeaderValue)
      : Type 0 where
    pub resp : Response http
    pub answered : send req n ≡ (some resp, n')
    pub asks : resp.status ≡ 402
    pub challenge : PaymentChallenge
    pub reads : read_response http codec tokens provider send resp ≡ ok challenge
    pub credential : PaymentCredential
    pub pays : provider.pay challenge p ≡ (some credential, paid)
    pub auth : Text
    pub formats : format_authorization tokens credential ≡ ok auth
    pub written : http.from_str auth ≡ some v

  -- The answer to the second request is the client's.
  pub fetch_again :
      (req : Request http) (n n' n'' : N) (p paid : P) (v : http.HeaderValue)
      (r : Option (Response http))
      → HasPaid req n n' p paid v
      → send (record req { headers = http.append authorization_header v req.headers }) n' ≡ (r, n'')
      → send_with_payment http codec tokens provider send true req n p
        ≡ (sent http codec tokens provider send r, (n'', paid))
  unfolding send_with_payment read_response
  fetch_again req n n' n'' p paid v r h again =
      rw (h.answered) (
        rw (h.asks)
          (rw (h.reads) (rw (h.pays) (rw (h.formats) (rw (h.written) (rw (again) refl))))))

  pub handle_again :
      (req : Request http) (n n' n'' : N) (p paid : P) (v : http.HeaderValue)
      (r : Option (Response http))
      → HasPaid req n n' p paid v
      → send (record req { headers = http.insert authorization_header v req.headers }) n' ≡ (r, n'')
      → handle http codec tokens provider send true req n p
        ≡ (sent http codec tokens provider send r, (n'', paid))
  unfolding handle read_response
  handle_again req n n' n'' p paid v r h again =
      rw (h.answered) (
        rw (h.asks)
          (rw (h.reads) (rw (h.pays) (rw (h.formats) (rw (h.written) (rw (again) refl))))))
