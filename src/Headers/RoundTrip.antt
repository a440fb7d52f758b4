-- ===== src/Headers/RoundTrip.antt =====
-- src/protocol/core/headers.rs: writing and reading `WWW-Authenticate`.
use mathlib.Core.List.{append-nil}
use mpp_movement.Prelude.{
  ◌≡◌, refl, sym, ap, ◌∙◌, true, false, not, [], ◌++◌, none, some, ok, ◌>>=◌, is_empty, and-eq-true,
}
use mpp_movement.Text.{
  Text, codes, text_eq, is_whitespace, to_ascii_lowercase, trim_start, split_at,
}
use mpp_movement.Json.{Json}
use mpp_movement.Map.{Map, lookup, lookup-nil}
use mpp_movement.Challenge.Types.{Codec, PaymentChallenge, new_name, is_valid_method, Bytes}
use mpp_movement.Headers.{
  strip_payment_scheme, digest_fits, read_challenge, parse_www_authenticate, if_some, params_of,
  format_www_authenticate,
}
use mpp_movement.Headers.Params.{rendered, all_fresh, parse_auth_params-rendered}
use mpp_movement.Headers.Fields.{
  format_params-formatted, inserted-append, fresh_keys, lookup-if_some, found_if_some,
  lower_of_lowercase, values_clean,
}

-- A challenge that a header can carry: no line breaks, an id, a method name in lower case, an intent
-- in lower case, a request that is JSON in base64url, and a digest by SHA-256 if any.
pub record IsPresentable (codec : Codec) (c : PaymentChallenge) : Type 0 where
  pub clean : values_clean (params_of c) ≡ true
  pub named : not (is_empty c.id) ≡ true
  pub of_method : is_valid_method c.method ≡ true
  pub of_intent : to_ascii_lowercase c.intent ≡ c.intent
  pub bytes : Bytes
  pub json : Json
  pub decodes : codec.base64url_decode c.request ≡ some bytes
  pub parses : codec.from_slice bytes ≡ some json
  pub digested : digest_fits c.digest ≡ true

module _ (codec : Codec) (c : PaymentChallenge) where
  at_digest : Map Text
  at_digest = if_some (codes "digest") c.digest ++ if_some (codes "opaque") c.opaque

  last_found : lookup (codes "opaque") (if_some (codes "opaque") c.opaque) ≡ c.opaque
  last_found =
      ap (lookup (codes "opaque")) (sym (append-nil (if_some (codes "opaque") c.opaque)))
      ∙ found_if_some (codes "opaque") c.opaque [] (lookup-nil (codes "opaque"))

  absent_last :
      (key : Text)
      → text_eq (codes "opaque") key ≡ false
      → lookup key (if_some (codes "opaque") c.opaque) ≡ none
  absent_last key h =
      ap (lookup key) (sym (append-nil (if_some (codes "opaque") c.opaque)))
      ∙ (lookup-if_some key (codes "opaque") c.opaque [] h ∙ lookup-nil key)

  expires_found : lookup (codes "expires") (params_of c) ≡ c.expires
  unfolding lookup
  expires_found = found_if_some (codes "expires") c.expires _ (
      lookup-if_some (codes "expires") (codes "description") c.description _ refl
      ∙ (lookup-if_some (codes "expires") (codes "digest") c.digest _ refl
          ∙ absent_last (codes "expires") refl))

  description_found : lookup (codes "description") (params_of c) ≡ c.description
  unfolding lookup
  description_found =
      lookup-if_some (codes "description") (codes "expires") c.expires _ refl
      ∙ found_if_some (codes "description") c.description _ (
          lookup-if_some (codes "description") (codes "digest") c.digest _ refl
          ∙ absent_last (codes "description") refl)

  digest_found : lookup (codes "digest") (params_of c) ≡ c.digest
  unfolding lookup
  digest_found =
      lookup-if_some (codes "digest") (codes "expires") c.expires _ refl
      ∙ (lookup-if_some (codes "digest") (codes "description") c.description _ refl
          ∙ found_if_some (codes "digest") c.digest _ (absent_last (codes "digest") refl))

  opaque_found : lookup (codes "opaque") (params_of c) ≡ c.opaque
  unfolding lookup
  opaque_found =
      lookup-if_some (codes "opaque") (codes "expires") c.expires _ refl
      ∙ (lookup-if_some (codes "opaque") (codes "description") c.description _ refl
          ∙ (lookup-if_some (codes "opaque") (codes "digest") c.digest _ refl ∙ last_found))

  lowercase_method : is_valid_method c.method ≡ true → new_name c.method ≡ c.method
  unfolding is_valid_method new_name
  lowercase_method h =
      let (_, letters) = and-eq-true (not (is_empty c.method)) _ h in
      lower_of_lowercase c.method letters

  lowercase_intent : to_ascii_lowercase c.intent ≡ c.intent → new_name c.intent ≡ c.intent
  unfolding new_name
  lowercase_intent h = h

  read_challenge-params_of : IsPresentable codec c → read_challenge codec (params_of c) ≡ ok c
  unfolding read_challenge lookup
  read_challenge-params_of w =
      let digested = ap digest_fits digest_found ∙ w.digested in
      let of_method = lowercase_method w.of_method in
      let of_intent = lowercase_intent w.of_intent in
      let same : ◌≡◌ {A = PaymentChallenge}
          (record c {
            method = new_name c.method;
            intent = new_name c.intent;
            expires = lookup (codes "expires") (params_of c);
            description = lookup (codes "description") (params_of c);
            digest = lookup (codes "digest") (params_of c);
            opaque = lookup (codes "opaque") (params_of c);
          })
          c =
        (λ i. record c {
          method = of_method i;
          intent = of_intent i;
          expires = expires_found i;
          description = description_found i;
          digest = digest_found i;
          opaque = opaque_found i;
        }) in
      rw (w.named)
        (rw (w.of_method) (rw (w.decodes) (rw (w.parses) (rw (digested) (ap (λ x. ok x) same)))))

  -- A challenge that a header can carry comes back the same from the header that is written for it.
  pub parse_www_authenticate-format_www_authenticate :
      IsPresentable codec c
      → (header : Text) × (format_www_authenticate c ≡ ok header)
        × (parse_www_authenticate codec header ≡ ok c)
  unfolding format_www_authenticate parse_www_authenticate strip_payment_scheme trim_start split_at
      is_whitespace
  parse_www_authenticate-format_www_authenticate w = (
    codes "Payment " ++ rendered (params_of c),
    rw (format_params-formatted (params_of c) w.clean) refl,
    ap (λ r. r >>= read_challenge codec) (parse_auth_params-rendered (params_of c) fresh)
        ∙ (ap (read_challenge codec) (inserted-append [] (params_of c) fresh)
            ∙ read_challenge-params_of w),
  )
    where
      fresh : all_fresh [] (params_of c) ≡ true
      fresh =
          fresh_keys c.id c.realm c.method c.intent c.request c.expires c.description c.digest
            c.opaque
