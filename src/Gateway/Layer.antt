-- ===== src/Gateway/Layer.antt =====
-- src/server/middleware.rs: the tower layer that lets a request through to a service once it is paid.
use mpp_movement.Prelude.{Option, none, some, Result, ok, err, or_else}
use mpp_movement.Text.{Text, codes}
use mpp_movement.Gateway.{
  HttpTypes, Request, Response, auth_header, bare_response, www_authenticate_header,
  payment_receipt_header,
}

-- A verifier whose state `verify` may change.
pub record PaymentVerifier (V : Type 0) : Type 0 where
  pub challenge : Result Text Text
  pub verify : Text → V → Result Text Text × V

module _ (http : HttpTypes) {V S E : Type 0} (verifier : PaymentVerifier V)
    (inner : Request http → S → Result E (Response http) × S) where
  open http use {insert, from_str, from_static}

  -- The response to a request without a credential.
  unfoldable pub challenge_response : Result Text Text → Response http
  challenge_response (ok challenge) = record (bare_response http 402) {
    headers =
        insert www_authenticate_header
          (or_else (from_str challenge) (from_static (codes "Payment"))) http.empty;
  }
  challenge_response (err e) = bare_response http 500

  abbrev pub attach_value : Option http.HeaderValue → Response http → Response http
  attach_value none resp = resp
  attach_value (some v) resp = record resp {
    headers = insert payment_receipt_header v resp.headers;
  }

  abbrev pub attach_receipt : Text → Result E (Response http) → Result E (Response http)
  attach_receipt receipt (err e) = err e
  attach_receipt receipt (ok resp) = ok (attach_value (from_str receipt) resp)

  -- With the verifier's answer.
  abbrev pub pass_on : Request http → Result Text Text → V → S → Result E (Response http) × (V × S)
  pass_on req (err e) v s = (ok (bare_response http 402), (v, s))
  pass_on req (ok receipt) v s = let (r, s') = inner req s in (attach_receipt receipt r, (v, s'))

  abbrev pub admit : Request http → Option Text → V → S → Result E (Response http) × (V × S)
  admit req none v s = (ok (challenge_response verifier.challenge), (v, s))
  admit req (some credential) v s =
      let (answer, v') = verifier.verify credential v in pass_on req answer v' s

  -- `PaymentService::call`.
  unfoldable pub call_service : Request http → V → S → Result E (Response http) × (V × S)
  call_service req v s = admit req (auth_header http req) v s
