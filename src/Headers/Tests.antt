-- ===== src/Headers/Tests.antt =====
-- The theorems on headers at a challenge with quotes in its description.
use mpp_movement.Prelude.{arith, ◌≡◌, refl, [], none, some, ok, err}
use mpp_movement.Text.{Text, codes, is_whitespace}
use mpp_movement.Json.{null}
use mpp_movement.Map.{lookup, insert}
use mpp_movement.Challenge.Tests.{toy_codec}
use mpp_movement.Challenge.Types.{Codec, PaymentChallenge, is_valid_method}
use mpp_movement.Headers.{
  parse_www_authenticate, format_www_authenticate, parse_auth_params, params_loop, skip_separators,
  take_key, take_quoted, take_bare, escape_quoted_value, bad_header,
}
use mpp_movement.Headers.Fuel.{Finishes, params_loop_ends}
use mpp_movement.Headers.RoundTrip.{IsPresentable, parse_www_authenticate-format_www_authenticate}

abbrev json_codec : Codec
json_codec = record toy_codec { from_slice = λ bs. some null }

abbrev toy_presented : PaymentChallenge
toy_presented = record {
  id = codes "abc123";
  realm = codes "api";
  method = codes "movement";
  intent = codes "charge";
  request = codes "e30";
  expires = none;
  description = some (codes "a \"b\" \\ c");
  digest = none;
  opaque = none;
}

toy_presented-IsPresentable : IsPresentable json_codec toy_presented
unfolding is_valid_method
toy_presented-IsPresentable = record {
  clean = refl;
  named = refl;
  of_method = refl;
  of_intent = refl;
  bytes = codes "e30";
  json = null;
  decodes = refl;
  parses = refl;
  digested = refl;
}

parse_www_authenticate-format_www_authenticate_example :
    (header : Text) × (format_www_authenticate toy_presented ≡ ok header)
    × (parse_www_authenticate json_codec header ≡ ok toy_presented)
parse_www_authenticate-format_www_authenticate_example =
    parse_www_authenticate-format_www_authenticate json_codec toy_presented
      toy_presented-IsPresentable

formats :
    format_www_authenticate toy_presented
    ≡ ok (
        codes
          "Payment id=\"abc123\", realm=\"api\", method=\"movement\", intent=\"charge\", request=\"e30\", description=\"a \\\"b\\\" \\\\ c\"")
unfolding format_www_authenticate escape_quoted_value
formats = refl

duplicates_refused : parse_auth_params (codes "id=a, id=b") ≡ err bad_header
unfolding parse_auth_params params_loop skip_separators take_key take_bare take_quoted is_whitespace
    lookup insert
duplicates_refused = refl

params_loop_ends_example : Finishes [] (codes "id=a") (params_loop 5 [] (codes "id=a"))
params_loop_ends_example = params_loop_ends 5 [] (codes "id=a") (omega arith)
