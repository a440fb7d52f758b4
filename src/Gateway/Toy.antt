-- ===== src/Gateway/Toy.antt =====
-- A small route of src/server/axum.rs, its headers and its client.
use mpp_movement.Prelude.{arith, true, ◌≡◌, refl, inr, [], ◌∷◌, ◌++◌, none, some, ok, or_else}
use mpp_movement.Text.{Text, codes, is_whitespace, trim}
use mpp_movement.Text.Equality.{text_eq_refl}
use mpp_movement.Text.Number.{parse_uint}
use mpp_movement.Json.{null}
use mpp_movement.Map.{Map, lookup, insert, lookup-insert}
use mpp_movement.Amount.{parse_dollar_amount, scale_parts}
use mpp_movement.Challenge.{compute_challenge_id, hmac_input, to_echo}
use mpp_movement.Challenge.Types.{
  Codec, PaymentChallenge, PaymentCredential, Receipt, success, is_valid_method,
}
use mpp_movement.Challenge.Tests.{toy_codec}
use mpp_movement.Charge.Request.{ChargeRequest, with_base_units}
use mpp_movement.Headers.Tokens.{Tokens, IsToken}
use mpp_movement.Headers.RoundTrip.{IsPresentable}
use mpp_movement.Session.Effects.{Rest, unreachable, Prog, run, lift}
use mpp_movement.Server.{Formats, Mpp}
use mpp_movement.Server.Issue.{
  plain_request, charge_challenge_with_options, require_movement_config,
  movement_charge_with_options,
}
use mpp_movement.Gateway.{HttpTypes, IsHeaderMap, IsCarried, Request, Response}
use mpp_movement.Gateway.Extractor.{ChargeConfig, mpp_challenge}
use mpp_movement.Gateway.Fetch.{PaymentProvider}
use mpp_movement.Gateway.Carrying.{IsSendable}
use mpp_movement.Gateway.Served.{IsPaidFor}

abbrev pub append_last : Text → Text → Map Text → Map Text
append_last name v h = h ++ (name, v) ∷ []

pub lookup-append_last :
    (name v : Text) (h : Map Text)
    → lookup name (append_last name v h) ≡ some (or_else (lookup name h) v)
unfolding lookup
lookup-append_last name v [] = rw (text_eq_refl name) refl
lookup-append_last name v ((j, w) ∷ h) = ground (arith, lookup-append_last name v h)

-- Headers as an association list.
abbrev pub toy_http : HttpTypes
toy_http = record {
  HeaderMap = Map Text;
  HeaderValue = Text;
  empty = [];
  get = lookup;
  insert = insert;
  append = append_last;
  from_str = λ t. some t;
  to_str = λ v. some v;
  from_static = λ t. t;
}

pub toy_http-IsHeaderMap : IsHeaderMap toy_http
unfolding lookup
toy_http-IsHeaderMap = record {
  get-empty = λ name. refl;
  get-insert = λ name v h. rw (lookup-insert name name v h) (rw (text_eq_refl name) refl);
  get-insert_other = λ name other v h e. rw (lookup-insert name other v h) (rw (e) refl);
  get-append = lookup-append_last;
}

abbrev pub json_codec : Codec
json_codec = record toy_codec { from_slice = λ bs. some null }

abbrev pub toy_request : ChargeRequest
toy_request = plain_request (codes "1250000") (codes "0xa") (codes "0xb") none none

abbrev pub toy_formats : Formats
toy_formats = record {
  decode_charge = λ t. some toy_request;
  encode_charge = λ r. some (codes "e30");
  decode_session = λ t. none;
  payload_as = λ j. none;
  default_expires = some (codes "<");
}

abbrev pub toy_mpp : Mpp
toy_mpp = record {
  realm = codes "api";
  secret_key = 5 ∷ [];
  currency = some (codes "0xa");
  recipient = some (codes "0xb");
  decimals = 6;
}

abbrev pub toy_issued : PaymentChallenge
toy_issued = record {
  id =
      compute_challenge_id json_codec (5 ∷ []) (codes "api") (codes "movement") (codes "charge")
        (codes "e30") (some (codes "<")) none none;
  realm = codes "api";
  method = codes "movement";
  intent = codes "charge";
  request = codes "e30";
  expires = some (codes "<");
  description = none;
  digest = none;
  opaque = none;
}

abbrev pub toy_paid : PaymentCredential
toy_paid = record { challenge = to_echo toy_issued; source = none; payload = null }

abbrev pub toy_receipt : Receipt
toy_receipt = record {
  status = success;
  method = codes "movement";
  timestamp = [];
  reference = codes "0x99";
}

abbrev pub toy_tokens : Tokens
toy_tokens = record {
  base64url_encode = λ bs. bs;
  base64url_decode = λ s. some s;
  credential_json = λ c. some (codes "eyJ9");
  credential_from = λ bs. some toy_paid;
  receipt_json = λ r. some (codes "eyJ9");
  receipt_from = λ bs. some toy_receipt;
  parse_rfc3339 = λ s. some 0;
}

abbrev pub toy_method : PaymentCredential → ChargeRequest → Prog Receipt
toy_method credential request = lift (ok toy_receipt)

abbrev pub toy_rest : Rest
toy_rest q = unreachable

abbrev pub toy_config : ChargeConfig
toy_config = record { amount = codes "1.25"; description = none }

abbrev pub toy_handler : Receipt → Response toy_http
toy_handler receipt = record { status = 200; headers = []; body = codes "paid" }

abbrev pub toy_provider : PaymentProvider (Unit {0})
toy_provider = record { supports = λ m i. true; pay = λ c u. (some toy_paid, u) }

abbrev pub bare_request : Request toy_http
bare_request = record { method = codes "GET"; uri = codes "/"; headers = []; body = [] }

pub toy_issues :
    mpp_challenge json_codec toy_formats toy_tokens toy_rest toy_method toy_mpp (codes "1.25") none
    ≡ some toy_issued
unfolding mpp_challenge movement_charge_with_options require_movement_config parse_dollar_amount
    scale_parts trim charge_challenge_with_options with_base_units is_whitespace parse_uint
toy_issues = refl

pub toy_issued-IsPresentable : IsPresentable json_codec toy_issued
unfolding is_valid_method compute_challenge_id hmac_input
toy_issued-IsPresentable = record {
  clean = refl;
  named = refl;
  of_method = refl;
  of_intent = refl;
  bytes = codes "e30";
  json = null;
  decodes = refl;
  parses = refl;
  digested = refl;
}

pub carried : (t : Text) → IsCarried toy_http t
carried t = record { value = t; written = refl; reads = refl }

pub toy_json-IsToken : IsToken toy_tokens (codes "eyJ9")
unfolding is_whitespace
toy_json-IsToken = record {
  filled = refl;
  unbroken = (refl, (refl, (refl, (refl, tt))));
  single = refl;
  short = omega arith;
  decodes = refl;
}

pub toy_paid-IsSendable : IsSendable toy_http toy_http-IsHeaderMap json_codec toy_tokens toy_paid
toy_paid-IsSendable = record {
  bytes = codes "eyJ9";
  json = refl;
  reads = refl;
  token = toy_json-IsToken;
  carried = carried _;
}

pub toy_paid-IsPaidFor :
    IsPaidFor toy_http toy_http-IsHeaderMap json_codec toy_tokens toy_formats toy_rest toy_method []
      [] toy_issued toy_paid toy_receipt
unfolding run lift
toy_paid-IsPaidFor = record {
  echoed = refl;
  request = toy_request;
  decoded = refl;
  current = inr (codes "<", (60, refl, refl, omega arith));
  accepted = refl;
}
