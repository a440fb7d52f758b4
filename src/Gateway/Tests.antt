-- ===== src/Gateway/Tests.antt =====
-- A small route and its client, and the theorems at them.
use mpp_movement.Prelude.{true, ◌≡◌, refl, ◌⊎◌, [], ◌∷◌, none, ok, err, Option, Result}
use mpp_movement.Text.{Text, codes, is_whitespace, trim, text_eq}
use mpp_movement.Map.{lookup}
use mpp_movement.Challenge.{compute_challenge_id, hmac_input, to_echo}
use mpp_movement.Headers.Tokens.{parse_authorization, format_authorization}
use mpp_movement.Headers.RoundTrip.{parse_www_authenticate-format_www_authenticate}
use mpp_movement.Session.Effects.{run, lift, ◌>>=◌}
use mpp_movement.Server.{verify, verify_credential, verify_hmac_and_expiry}
use mpp_movement.Gateway.{Request, Response, auth_header}
use mpp_movement.Gateway.Extractor.{mpp_challenger, with_receipt, paid_route}
use mpp_movement.Gateway.Fetch.{HttpError, send_with_payment, handle}
use mpp_movement.Gateway.Extractor.{
  ChargeChallenger, mpp_verify_payment, payment_required_response, from_request_parts,
}
use mpp_movement.Gateway.Layer.{PaymentVerifier, call_service}
use mpp_movement.Gateway.Pricing.{price_ignored}
use mpp_movement.Gateway.Frugal.{IsAsked, payment-IsAsked}
use mpp_movement.Gateway.Paying.{HasPaid}
use mpp_movement.Gateway.Lost.{asked_again, own_authorization_unserved}
use mpp_movement.Session.State.{Store}
use mpp_movement.Headers.{extract_payment_scheme}
use mpp_movement.Text.{trim_start, split_at}
use mpp_movement.Prelude.{ℕ, ◌+◌, if◌then◌else◌}
use mpp_movement.Gateway.Carrying.{read_challenge_response, required_status}
use mpp_movement.Gateway.Served.{fetch-IsServed}
use mpp_movement.Gateway.Toy.{
  toy_http, toy_http-IsHeaderMap, json_codec, toy_formats, toy_mpp, toy_issued, toy_paid,
  toy_receipt, toy_tokens, toy_method, toy_rest, toy_config, toy_handler, toy_provider,
  bare_request, toy_issues, toy_issued-IsPresentable, carried, toy_paid-IsSendable,
  toy_paid-IsPaidFor,
}

abbrev toy_route : Request toy_http → Store → Option (Response toy_http) × Store
toy_route =
    paid_route toy_http toy_tokens
      (mpp_challenger json_codec toy_formats toy_tokens toy_rest toy_method toy_mpp) toy_config
      toy_handler

fetch-IsServed_example :
    let served : Result HttpError (Response toy_http) × (Store × Unit {0}) =
      (ok (with_receipt toy_http toy_tokens toy_receipt (toy_handler toy_receipt)), ([], tt)) in
    (send_with_payment toy_http json_codec toy_tokens toy_provider toy_route true bare_request [] tt
      ≡ served)
    × (handle toy_http json_codec toy_tokens toy_provider toy_route true bare_request [] tt
        ≡ served)
unfolding lookup
fetch-IsServed_example =
    fetch-IsServed toy_http toy_http-IsHeaderMap json_codec toy_tokens toy_formats toy_rest
      toy_method toy_mpp toy_config toy_handler toy_provider bare_request toy_issued toy_paid
      toy_receipt [] [] tt tt refl toy_issues toy_issued-IsPresentable (λ t e. carried t) refl
      toy_paid-IsSendable toy_paid-IsPaidFor

payment-IsAsked_example :
    let fetched =
      (send_with_payment toy_http json_codec toy_tokens toy_provider toy_route true bare_request []
        tt).1.1 in
    let handled =
      (handle toy_http json_codec toy_tokens toy_provider toy_route true bare_request [] tt).1.1 in
    ((fetched ≡ tt)
      ⊎ IsAsked toy_http json_codec toy_tokens toy_provider toy_route bare_request [] tt fetched)
    × ((handled ≡ tt)
        ⊎ IsAsked toy_http json_codec toy_tokens toy_provider toy_route bare_request [] tt handled)
payment-IsAsked_example =
    payment-IsAsked toy_http json_codec toy_tokens toy_provider toy_route true bare_request [] tt

-- A verifier that knows one credential, before a service that counts its calls.
abbrev toy_verifier : PaymentVerifier (Unit {0})
toy_verifier = record {
  challenge = ok (codes "Payment x");
  verify = λ t u. (if text_eq t (codes "Payment eyJ9") then ok (codes "r") else err [], u);
}

abbrev toy_inner : Request toy_http → ℕ → Result Text (Response toy_http) × ℕ
toy_inner req n = (ok (record { status = 200; headers = []; body = [] }), n + 1)

abbrev paying_request : Request toy_http
paying_request = record {
  method = codes "GET";
  uri = codes "/";
  headers = (codes "authorization", codes "Payment eyJ9") ∷ [];
  body = [];
}

passes_on : (call_service toy_http toy_verifier toy_inner paying_request tt 4).1.1 ≡ 5
unfolding call_service auth_header lookup extract_payment_scheme trim trim_start split_at
    is_whitespace
passes_on = refl

abbrev toy_challenger : ChargeChallenger Store
toy_challenger = mpp_challenger json_codec toy_formats toy_tokens toy_rest toy_method toy_mpp

extracts :
    (from_request_parts toy_http toy_challenger toy_config paying_request []).0 ≡ ok toy_receipt
unfolding from_request_parts auth_header lookup extract_payment_scheme trim trim_start split_at
    is_whitespace mpp_verify_payment verify_credential verify verify_hmac_and_expiry run lift ◌>>=◌
    parse_authorization compute_challenge_id hmac_input to_echo
extracts = refl

-- A route that asks for a hundred dollars.
price_ignored_example :
    from_request_parts toy_http toy_challenger
      (record { amount = codes "100"; description = none })
      paying_request
      []
    ≡ (ok toy_receipt, (from_request_parts toy_http toy_challenger toy_config paying_request []).1)
price_ignored_example =
    price_ignored toy_http toy_challenger toy_config
      (record { amount = codes "100"; description = none }) paying_request [] extracts

abbrev bearing_request : Request toy_http
bearing_request = record {
  method = codes "GET";
  uri = codes "/";
  headers = (codes "authorization", codes "Bearer x") ∷ [];
  body = [];
}

unseen : auth_header toy_http bearing_request ≡ none
unfolding auth_header lookup extract_payment_scheme trim trim_start split_at is_whitespace
unseen = refl

asked_status : (payment_required_response toy_http toy_issued).status ≡ 402
asked_status =
    let (t, f, _) =
      parse_www_authenticate-format_www_authenticate json_codec toy_issued
        toy_issued-IsPresentable in
    required_status toy_http toy_http-IsHeaderMap json_codec toy_tokens toy_issued t f

writes : format_authorization toy_tokens toy_paid ≡ ok (codes "Payment eyJ9")
unfolding format_authorization
writes = refl

bearing-HasPaid :
    HasPaid toy_http json_codec toy_tokens toy_provider toy_route bearing_request [] [] tt tt
      (codes "Payment eyJ9")
bearing-HasPaid = record {
  resp = payment_required_response toy_http toy_issued;
  answered =
      asked_again toy_http toy_http-IsHeaderMap json_codec toy_tokens toy_challenger toy_config
        toy_handler toy_provider bearing_request toy_issued [] toy_issues unseen;
  asks = asked_status;
  challenge = toy_issued;
  reads =
      read_challenge_response toy_http toy_http-IsHeaderMap json_codec toy_tokens toy_provider
        toy_route toy_issued toy_issued-IsPresentable (λ t e. carried t);
  credential = toy_paid;
  pays = refl;
  auth = codes "Payment eyJ9";
  formats = writes;
  written = refl;
}

own_authorization_unserved_example :
    send_with_payment toy_http json_codec toy_tokens toy_provider toy_route true bearing_request []
      tt
    ≡ (ok (payment_required_response toy_http toy_issued), ([], tt))
unfolding lookup
own_authorization_unserved_example =
    own_authorization_unserved toy_http toy_http-IsHeaderMap json_codec toy_tokens toy_challenger
      toy_config toy_handler toy_provider bearing_request (codes "Bearer x") (codes "Payment eyJ9")
      toy_issued [] tt tt toy_issues refl unseen bearing-HasPaid
