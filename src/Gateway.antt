-- ===== src/Gateway.antt =====
-- The requests and responses that src/server/axum.rs, src/server/middleware.rs and
-- src/client/fetch.rs handle. The crate for HTTP types is the record `HttpTypes`.
pub mod Layer
pub mod Guarded
pub mod Extractor
pub mod Pricing
pub mod Fetch
pub mod Frugal
pub mod Paying
pub mod Lost
pub mod Carrying
pub mod Served
pub mod EndToEnd
mod Toy
mod Tests
mod ChargeTests
use mpp_movement.Prelude.{ℕ, false, ◌≡◌, [], Option, none, some, and_then, or_else}
use mpp_movement.Text.{Text, codes, text_eq}
use mpp_movement.Headers.{extract_payment_scheme}

-- A header map and its values. `insert` replaces the values of a name, `append` adds one behind them,
-- and `get` gives the first.
pub record HttpTypes : Type 1 where
  pub HeaderMap : Type 0
  pub HeaderValue : Type 0
  pub empty : HeaderMap
  pub get : Text → HeaderMap → Option HeaderValue
  pub insert : Text → HeaderValue → HeaderMap → HeaderMap
  pub append : Text → HeaderValue → HeaderMap → HeaderMap
  pub from_str : Text → Option HeaderValue
  pub to_str : HeaderValue → Option Text
  -- `HeaderValue::from_static` of a text that is known to be one.
  pub from_static : Text → HeaderValue

-- What the crate documents.
pub record IsHeaderMap (http : HttpTypes) : Type 0 where
  pub get-empty : (name : Text) → http.get name http.empty ≡ none
  pub get-insert :
      (name : Text) (v : http.HeaderValue) (h : http.HeaderMap)
      → http.get name (http.insert name v h) ≡ some v
  pub get-insert_other :
      (name other : Text) (v : http.HeaderValue) (h : http.HeaderMap)
      → text_eq name other ≡ false
      → http.get other (http.insert name v h) ≡ http.get other h
  pub get-append :
      (name : Text) (v : http.HeaderValue) (h : http.HeaderMap)
      → http.get name (http.append name v h) ≡ some (or_else (http.get name h) v)

pub record Request (http : HttpTypes) : Type 0 where
  pub method : Text
  pub uri : Text
  pub headers : http.HeaderMap
  pub body : Text

pub record Response (http : HttpTypes) : Type 0 where
  pub status : ℕ
  pub headers : http.HeaderMap
  pub body : Text

abbrev pub www_authenticate_header : Text
www_authenticate_header = codes "www-authenticate"

abbrev pub authorization_header : Text
authorization_header = codes "authorization"

abbrev pub payment_receipt_header : Text
payment_receipt_header = codes "payment-receipt"

module _ (http : HttpTypes) where
  open http use {HeaderMap, get, to_str, empty}

  -- The `Payment` scheme in the first `Authorization` header.
  unfoldable pub auth_header : Request http → Option Text
  auth_header req =
      and_then (and_then (get authorization_header req.headers) to_str) extract_payment_scheme

  -- A response with a status alone.
  abbrev pub bare_response : ℕ → Response http
  bare_response status = record { status = status; headers = empty; body = [] }

  -- Text that a header carries.
  pub record IsCarried (t : Text) : Type 0 where
    pub value : http.HeaderValue
    pub written : http.from_str t ≡ some value
    pub reads : to_str value ≡ some t
