-- ===== src/Challenge.antt =====
-- src/protocol/core/challenge.rs and src/protocol/core/types.rs: challenges, their echoes,
-- credentials and receipts, and the binding of a challenge's id to its fields. The crates for
-- HMAC, base64, JSON and time are the record `Codec`.
pub mod Types
pub mod Binding
pub mod Tests
use mpp_movement.Prelude.{
  ℕ, ◌≡◌, refl, Bool, true, false, not, ◌&&◌, List, [], ◌∷◌, ◌++◌, Option, none, some, Result, ok,
  err, leb, ◌==◌, bit_or, bit_xor, zero, if◌then◌else◌, is_empty, length, ◌+◌, ◌/◌, ◌%◌, ltb,
}
use mpp_movement.Text.{Text, codes, join, eq_ignore_ascii_case, to_ascii_lowercase}
use Types.{Bytes, Codec, PaymentChallenge, ChallengeEcho, ChallengeError}
use Types.{unsupported_method, invalid_challenge, payment_expired}

-- `opt.unwrap_or("")`.
abbrev pub or_blank : Option Text → Text
or_blank none = []
or_blank (some s) = s

-- The text under the HMAC: seven fields joined by bars.
unfoldable pub hmac_input :
    Text → Text → Text → Text → Option Text → Option Text → Option Text → Text
hmac_input realm method intent request expires digest opaque =
    join (codes "|") (
      realm ∷ method ∷ intent ∷ request ∷ or_blank expires ∷ or_blank digest ∷ or_blank opaque ∷ [])

-- The bytes of a character and of a text in UTF-8.
abbrev utf8_char : ℕ → Bytes
utf8_char c =
    if ltb c 0x80
    then c ∷ []
    else if ltb c 0x800
    then (0xc0 + c / 64) ∷ (0x80 + c % 64) ∷ []
    else if ltb c 0x10000
    then (0xe0 + c / 4096) ∷ (0x80 + c / 64 % 64) ∷ (0x80 + c % 64) ∷ []
    else (0xf0 + c / 262144) ∷ (0x80 + c / 4096 % 64) ∷ (0x80 + c / 64 % 64) ∷ (0x80 + c % 64) ∷ []

unfoldable pub utf8 : Text → Bytes
utf8 [] = []
utf8 (c ∷ s) = utf8_char c ++ utf8 s

-- The loop of `constant_time_eq`.
unfoldable pub differences : ℕ → Bytes → Bytes → ℕ
differences result (x ∷ xs) (y ∷ ys) = differences (bit_or result (bit_xor x y)) xs ys
differences result _ _ = result

unfoldable pub constant_time_eq : Text → Text → Bool
constant_time_eq a b =
    if not (length (utf8 a) == length (utf8 b)) then false else differences 0 (utf8 a) (utf8 b) == 0

module _ (codec : Codec) where
  open codec use {hmac_sha256, base64url_encode, parse_rfc3339, now_utc}

  unfoldable pub compute_challenge_id :
      Text → Text → Text → Text → Text → Option Text → Option Text → Option Text → Text
  compute_challenge_id secret_key realm method intent request expires digest opaque =
      base64url_encode
        (hmac_sha256 secret_key (hmac_input realm method intent request expires digest opaque))

  -- `PaymentChallenge::with_secret_key_full`.
  unfoldable pub with_secret_key_full :
      Text
      → Text
      → Text
      → Text
      → Text
      → Option Text
      → Option Text
      → Option Text
      → Option Text
      → PaymentChallenge
  with_secret_key_full secret_key realm method intent request expires digest description opaque =
      let method' = to_ascii_lowercase method in
      let intent' = to_ascii_lowercase intent in
      record {
        id = compute_challenge_id secret_key realm method' intent' request expires digest opaque;
        realm = realm;
        method = method';
        intent = intent';
        request = request;
        expires = expires;
        description = description;
        digest = digest;
        opaque = opaque;
      }

  -- `PaymentChallenge::with_secret_key`.
  unfoldable pub with_secret_key : Text → Text → Text → Text → Text → PaymentChallenge
  with_secret_key secret_key realm method intent request =
      let method' = to_ascii_lowercase method in
      let intent' = to_ascii_lowercase intent in
      record {
        id = compute_challenge_id secret_key realm method' intent' request none none none;
        realm = realm;
        method = method';
        intent = intent';
        request = request;
        expires = none;
        description = none;
        digest = none;
        opaque = none;
      }

  -- `PaymentChallenge::verify`.
  unfoldable pub verify : PaymentChallenge → Text → Bool
  verify c secret_key = constant_time_eq c.id (
      compute_challenge_id secret_key c.realm c.method c.intent c.request c.expires c.digest
        c.opaque)

  -- An unparseable time counts as past.
  abbrev is_past : Option ℕ → Bool
  is_past none = true
  is_past (some t) = leb t now_utc

  unfoldable pub is_expired : PaymentChallenge → Bool
  is_expired c = elim c.expires [ none ↦ false | some s ↦ is_past (parse_rfc3339 s) ]

  unfoldable pub expires_at : PaymentChallenge → Option ℕ
  expires_at c = elim c.expires [ none ↦ none | some s ↦ parse_rfc3339 s ]

  validate_for : Text → PaymentChallenge → Text → Result ChallengeError (Unit {0})
  validate_for intent c method =
      if not (eq_ignore_ascii_case c.method method)
      then err unsupported_method
      else if not (eq_ignore_ascii_case c.intent intent)
      then err (invalid_challenge (some c.id))
      else if is_expired c
      then err (payment_expired c.expires)
      else ok tt

  unfoldable pub validate_for_charge : PaymentChallenge → Text → Result ChallengeError (Unit {0})
  unfolding validate_for
  validate_for_charge = validate_for (codes "charge")

  unfoldable pub validate_for_session : PaymentChallenge → Text → Result ChallengeError (Unit {0})
  unfolding validate_for
  validate_for_session = validate_for (codes "session")

-- `PaymentChallenge::to_echo`.
unfoldable pub to_echo : PaymentChallenge → ChallengeEcho
to_echo c = record {
  id = c.id;
  realm = c.realm;
  method = c.method;
  intent = c.intent;
  request = c.request;
  expires = c.expires;
  digest = c.digest;
  opaque = c.opaque;
}
