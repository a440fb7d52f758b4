-- ===== src/Challenge/Tests.antt =====
-- A small instance of the crates, and the theorems on challenges at it.
use mpp_movement.Prelude.{ℕ, ◌+◌, ◌≡◌, refl, true, [], ◌∷◌, none, some}
use mpp_movement.Text.{codes}
use mpp_movement.Challenge.{
  hmac_input, utf8, constant_time_eq, compute_challenge_id, verify, differences,
}
use mpp_movement.Challenge.Types.{Bytes, Codec, PaymentChallenge}
use mpp_movement.Challenge.Binding.{bound_fields, hmac_input_binds}

abbrev total : Bytes → ℕ
total [] = 0
total (b ∷ bs) = b + total bs

abbrev pub toy_codec : Codec
toy_codec = record {
  hmac_sha256 = λ key text. (total key + total text) ∷ [];
  base64url_encode = λ bs. bs;
  base64url_decode = λ s. some s;
  parse_rfc3339 = λ s. some (total s);
  now_utc = 50;
  from_slice = λ bs. none;
}

abbrev pub toy_challenge : PaymentChallenge
toy_challenge = record {
  id = (5 + total (codes "api|movement|charge|e30|||")) ∷ [];
  realm = codes "api";
  method = codes "movement";
  intent = codes "charge";
  request = codes "e30";
  expires = none;
  description = none;
  digest = none;
  opaque = none;
}

hmac_input_binds_example : bound_fields toy_challenge ≡ bound_fields toy_challenge
hmac_input_binds_example =
    hmac_input_binds toy_challenge toy_challenge refl refl refl refl refl refl refl refl

verifies : verify toy_codec toy_challenge (5 ∷ []) ≡ true
unfolding verify constant_time_eq utf8 compute_challenge_id hmac_input differences
verifies = refl
