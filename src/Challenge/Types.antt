-- ===== src/Challenge/Types.antt =====
-- src/protocol/core/challenge.rs and src/protocol/core/types.rs: the data of the protocol. A method or
-- intent name is the text that its constructor has put in lower case; `Base64UrlJson` is its raw
-- text.
use mpp_movement.Prelude.{ℕ, Bool, ◌&&◌, not, List, Option, is_empty, all}
use mpp_movement.Text.{Text, codes, is_ascii_lowercase, to_ascii_lowercase, eq_ignore_ascii_case}
use mpp_movement.Json.{Json}

abbrev pub Bytes : Type 0
Bytes = List ℕ

-- The crates that the code calls. Times are counted from the earliest one that can be written.
pub record Codec : Type 0 where
  pub hmac_sha256 : Text → Text → Bytes
  pub base64url_encode : Bytes → Text
  pub base64url_decode : Text → Option Bytes
  pub parse_rfc3339 : Text → Option ℕ
  pub now_utc : ℕ
  -- `serde_json::from_slice` to a JSON value.
  pub from_slice : Bytes → Option Json

-- `MethodName::new` and `IntentName::new`.
unfoldable pub new_name : Text → Text
new_name name = to_ascii_lowercase name

-- `MethodName::is_valid`.
unfoldable pub is_valid_method : Text → Bool
is_valid_method name = not (is_empty name) && all is_ascii_lowercase name

unfoldable pub is_charge : Text → Bool
is_charge intent = eq_ignore_ascii_case intent (codes "charge")

unfoldable pub is_session : Text → Bool
is_session intent = eq_ignore_ascii_case intent (codes "session")

pub record PaymentChallenge : Type 0 where
  pub id : Text
  pub realm : Text
  pub method : Text
  pub intent : Text
  pub request : Text
  pub expires : Option Text
  pub description : Option Text
  pub digest : Option Text
  pub opaque : Option Text

pub record ChallengeEcho : Type 0 where
  pub id : Text
  pub realm : Text
  pub method : Text
  pub intent : Text
  pub request : Text
  pub expires : Option Text
  pub digest : Option Text
  pub opaque : Option Text

pub record PaymentCredential : Type 0 where
  pub challenge : ChallengeEcho
  pub source : Option Text
  pub payload : Json

pub data ReceiptStatus : Type 0 where
  success failed : ReceiptStatus

pub record Receipt : Type 0 where
  pub status : ReceiptStatus
  pub method : Text
  pub timestamp : Text
  pub reference : Text

-- `Receipt::success`, with the time that its clock reads.
unfoldable pub new_receipt : Text → Text → Text → Receipt
new_receipt now method reference = record {
  status = success;
  method = new_name method;
  timestamp = now;
  reference = reference;
}

-- The variants of `MppError` that challenges raise, without their messages.
pub data ChallengeError : Type 0 where
  unsupported_method : ChallengeError
  invalid_challenge : Option Text → ChallengeError
  payment_expired : Option Text → ChallengeError
  invalid_base64 : ChallengeError
