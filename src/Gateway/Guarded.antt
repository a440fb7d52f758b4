-- ===== src/Gateway/Guarded.antt =====
-- src/server/middleware.rs: which requests reach the service behind the payment layer.
use mpp_movement.Prelude.{◌≡◌, ◌⊎◌, none, some, Result, ok, err, and_then}
use mpp_movement.Text.{Text, codes}
use mpp_movement.Headers.Scheme.{IsOfScheme}
use mpp_movement.Gateway.{HttpTypes, IsHeaderMap, Request, Response}
use mpp_movement.Gateway.Layer.{PaymentVerifier}

module _ (http : HttpTypes) (lawful : IsHeaderMap http) {V S E : Type 0}
    (verifier : PaymentVerifier V) (inner : Request http → S → Result E (Response http) × S) where
  -- A credential of the scheme `Payment` in the first `Authorization` header.
  pub record IsPresented (req : Request http) (credential : Text) : Type 0 where
    pub value : http.HeaderValue
    pub held : http.get (codes "authorization") req.headers ≡ some value
    pub header : Text
    pub reads : http.to_str value ≡ some header
    pub scheme : IsOfScheme header credential

  -- The service's response with the receipt in its header, where a header can carry it.
  pub record IsReceipted (receipt : Text) (resp out : Response http) : Type 0 where
    pub status : out.status ≡ resp.status
    pub body : out.body ≡ resp.body
    pub receipted :
        ((value : http.HeaderValue) × (http.from_str receipt ≡ some value)
          × (http.get (codes "payment-receipt") out.headers ≡ some value))
        ⊎ ((http.from_str receipt ≡ none) × (out.headers ≡ resp.headers))

  -- What the client gets of the service's answer.
  abbrev pub Answers : Text → Result E (Response http) → Result E (Response http) → Type 0
  Answers receipt answer got =
      ((e : E) × (answer ≡ err e) × (got ≡ err e))
      ⊎ ((resp : Response http) × (out : Response http) × (answer ≡ ok resp)
          × (got ≡ ok out)
          × IsReceipted receipt resp out)

  -- What comes of a request whose credential the verifier accepts.
  pub record IsPassed (req : Request http) (v : V) (s : S) (r : Result E (Response http) × (V × S))
      : Type 0 where
    pub credential : Text
    pub presented : IsPresented req credential
    pub receipt : Text
    pub accepted : (verifier.verify credential v).0 ≡ ok receipt
    pub answered : Answers receipt (inner req s).0 r.0
    pub changed : r.1.1 ≡ (inner req s).1

  -- No readable `Authorization` header, or one without a piece of the scheme.
  abbrev pub Lacks : Request http → Type 0
  Lacks req =
      (and_then (http.get (codes "authorization") req.headers) http.to_str ≡ none)
      ⊎ ((header : Text) × (and_then (http.get (codes "authorization") req.headers) http.to_str
            ≡ some header)
          × ((credential : Text) → ¬ IsOfScheme header credential))

  -- No credential, or one that the verifier refuses.
  abbrev pub Unpaid : Request http → V → Response http → Type 0
  Unpaid req v resp =
      (Lacks req × ((resp.status ≡ 402) ⊎ (resp.status ≡ 500)))
      ⊎ ((credential : Text) × IsPresented req credential
          × (e : Text) × ((verifier.verify credential v).0 ≡ err e)
          × (resp.status ≡ 402))

  -- What comes of any other: the service is as it was.
  pub record IsStopped (req : Request http) (v : V) (s : S) (r : Result E (Response http) × (V × S))
      : Type 0 where
    pub resp : Response http
    pub answered : r.0 ≡ ok resp
    pub unpaid : Unpaid req v resp
    pub kept : r.1.1 ≡ s
