-- ===== src/Headers/Tokens.antt =====
-- src/protocol/core/headers.rs: the headers that carry one token, `Authorization` and `Payment-Receipt`.
use mpp_movement.Prelude.{
  is_some, ℕ, ◌≤◌, ◌≡◌, refl, Bool, true, false, [], ◌∷◌, ◌++◌, Option, none, some, Result, ok,
  ◌>>=◌, ◌>>◌, ◌*◌, require, ok_or, leb, le→leb, is_empty, arith,
}
use mpp_movement.Text.{
  Text, codes, trim, trim_start, split, split_at, len, contains_char, is_whitespace,
}
use mpp_movement.Text.Trim.{NoBlank, trim_of_NoBlank, trim_end_of_NoBlank, trim_end-append}
use mpp_movement.Challenge.Types.{Bytes, PaymentCredential, Receipt, ChallengeError, invalid_base64}
use mpp_movement.Headers.{bad_header, extract_payment_scheme, digest_fits}

-- The crates for base64, JSON and time.
pub record Tokens : Type 0 where
  pub base64url_encode : Bytes → Text
  pub base64url_decode : Text → Option Bytes
  pub credential_json : PaymentCredential → Option Bytes
  pub credential_from : Bytes → Option PaymentCredential
  pub receipt_json : Receipt → Option Bytes
  pub receipt_from : Bytes → Option Receipt
  pub parse_rfc3339 : Text → Option ℕ

abbrev pub max_token_len : ℕ
max_token_len = 16 * 1024

abbrev behind : Option (Text × Text) → Text
behind none = []
behind (some (s, t)) = t

module _ (tokens : Tokens) where
  open tokens use {
    base64url_encode, base64url_decode, credential_json, credential_from, receipt_json,
    receipt_from, parse_rfc3339,
  }

  unfoldable pub is_iso8601_timestamp : Text → Bool
  is_iso8601_timestamp s = is_some (parse_rfc3339 s)

  unfoldable pub parse_authorization : Text → Result ChallengeError PaymentCredential
  parse_authorization header = do
    payment_part ← ok_or (extract_payment_scheme header) bad_header
    let token = trim (behind (split_at 8 payment_part))
    require (leb (len token) max_token_len) bad_header
    decoded ← ok_or (base64url_decode token) invalid_base64
    credential ← ok_or (credential_from decoded) bad_header
    require (digest_fits credential.challenge.digest) bad_header
    ok credential

  unfoldable pub format_authorization : PaymentCredential → Result ChallengeError Text
  format_authorization credential = do
    json ← ok_or (credential_json credential) bad_header
    ok (codes "Payment " ++ base64url_encode json)

  unfoldable pub parse_receipt : Text → Result ChallengeError Receipt
  parse_receipt header = do
    let token = trim header
    require (leb (len token) max_token_len) bad_header
    decoded ← ok_or (base64url_decode token) invalid_base64
    receipt ← ok_or (receipt_from decoded) bad_header
    require (is_iso8601_timestamp receipt.timestamp) bad_header
    ok receipt

  unfoldable pub format_receipt : Receipt → Result ChallengeError Text
  format_receipt receipt = do
    json ← ok_or (receipt_json receipt) bad_header
    ok (base64url_encode json)

  -- A token that a header can carry: base64url of at most 16 KiB, which decodes to what was encoded.
  pub record IsToken (bytes : Bytes) : Type 0 where
    pub filled : is_empty (base64url_encode bytes) ≡ false
    pub unbroken : NoBlank (base64url_encode bytes)
    pub single : contains_char b',' (base64url_encode bytes) ≡ false
    pub short : len (base64url_encode bytes) ≤ max_token_len
    pub decodes : base64url_decode (base64url_encode bytes) ≡ some bytes

  -- A receipt comes back the same from the header that is written for it, where its JSON reads back
  -- and is a token, and its time is one of RFC 3339.
  parse_receipt-format_receipt :
      (receipt : Receipt) (bytes : Bytes)
      → receipt_json receipt ≡ some bytes
      → receipt_from bytes ≡ some receipt
      → IsToken bytes
      → is_iso8601_timestamp receipt.timestamp ≡ true
      → (header : Text) × (format_receipt receipt ≡ ok header) × (parse_receipt header ≡ ok receipt)
  unfolding format_receipt parse_receipt
  parse_receipt-format_receipt receipt bytes written reads t timed = (
    base64url_encode bytes,
    rw written refl,
    rw (trim_of_NoBlank (base64url_encode bytes) t.unbroken)
        (rw (le→leb _ _ t.short) (rw (t.decodes) (rw (reads) (rw (timed) refl)))),
  )

  split_of_single : (s : Text) → contains_char b',' s ≡ false → split b',' s ≡ s ∷ []
  split_of_single [] h = refl
  split_of_single (c ∷ s) h = ground (arith, h, split_of_single s)

  pub extract_of_token :
      (t : Text)
      → is_empty t ≡ false
      → NoBlank t
      → contains_char b',' t ≡ false
      → extract_payment_scheme (codes "Payment " ++ t) ≡ some (codes "Payment " ++ t)
  unfolding extract_payment_scheme trim trim_start split_at is_whitespace
  extract_of_token t filled unbroken single =
      rw (split_of_single t single)
        (rw (trim_end-append (codes "Payment ") t filled (trim_end_of_NoBlank t unbroken)) refl)

  -- A credential comes back the same from the `Authorization` header that is written for it, where its
  -- JSON reads back and is a token, and its digest, if any, is by SHA-256.
  pub parse_authorization-format_authorization :
      (credential : PaymentCredential) (bytes : Bytes)
      → credential_json credential ≡ some bytes
      → credential_from bytes ≡ some credential
      → IsToken bytes
      → digest_fits credential.challenge.digest ≡ true
      → (header : Text) × (format_authorization credential ≡ ok header)
        × (parse_authorization header ≡ ok credential)
  unfolding format_authorization parse_authorization split_at
  parse_authorization-format_authorization credential bytes written reads t digested = (
    codes "Payment " ++ base64url_encode bytes,
    rw written refl,
    rw (extract_of_token (base64url_encode bytes) t.filled t.unbroken t.single) (
        rw (trim_of_NoBlank (base64url_encode bytes) t.unbroken)
          (rw (le→leb _ _ t.short) (rw (t.decodes) (rw (reads) (rw (digested) refl))))),
  )
