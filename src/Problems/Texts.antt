-- ===== src/Problems/Texts.antt =====
-- src/error.rs: the texts that the errors display.
use mpp_movement.Prelude.{◌++◌, [], Option, none, some}
use mpp_movement.Text.{Text, codes}
use mpp_movement.Text.Number.{to_string}
use mpp_movement.Problems.Types.{
  MppError, amount_exceeds_max, invalid_amount, invalid_config, http, chain_id_mismatch, json,
  hex_decode, base64_decode, unsupported_payment_method, missing_header, invalid_base64_url,
  malformed_credential, invalid_challenge, verification_failed, payment_expired, payment_required,
  invalid_payload, bad_request, insufficient_balance, invalid_signature, signer_mismatch,
  amount_exceeds_deposit, delta_too_small, channel_not_found, channel_closed, io, invalid_utf8,
  system_time,
}

-- A message with a reason, or the one without.
abbrev pub reasoned : Text → Text → Option Text → Text
reasoned prefix default none = default
reasoned prefix default (some r) = prefix ++ (codes ": " ++ (r ++ codes "."))

abbrev pub quoted_id : Option Text → Text
quoted_id none = []
quoted_id (some id) = codes " \"" ++ (id ++ codes "\"")

abbrev pub reason_part : Option Text → Text
reason_part none = []
reason_part (some r) = codes ": " ++ r

abbrev pub realm_part : Option Text → Text
realm_part none = []
realm_part (some r) = codes " for \"" ++ (r ++ codes "\"")

abbrev pub description_part : Option Text → Text
description_part none = []
description_part (some d) = codes " (" ++ (d ++ codes ")")

unfoldable pub format_invalid_challenge : Option Text → Option Text → Text
format_invalid_challenge id reason =
    codes "Challenge"
    ++ (quoted_id id ++ (codes " is invalid" ++ (reason_part reason ++ codes ".")))

unfoldable pub format_payment_expired : Option Text → Text
format_payment_expired none = codes "Payment has expired."
format_payment_expired (some e) = codes "Payment expired at " ++ (e ++ codes ".")

unfoldable pub format_payment_required : Option Text → Option Text → Text
format_payment_required realm description =
    codes "Payment is required" ++ (realm_part realm ++ (description_part description ++ codes "."))

-- `Display`.
unfoldable pub display : MppError → Text
display (amount_exceeds_max required max) =
    codes "Required amount ("
    ++ (to_string required ++ (codes ") exceeds maximum allowed (" ++ (to_string max ++ codes ")")))
display (invalid_amount m) = codes "Invalid amount: " ++ m
display (invalid_config m) = codes "Invalid configuration: " ++ m
display (http m) = codes "HTTP error: " ++ m
display (chain_id_mismatch expected got) =
    codes "Chain ID mismatch: challenge requires "
    ++ (to_string expected ++ (codes ", provider connected to " ++ to_string got))
display (json m) = codes "JSON error: " ++ m
display (hex_decode m) = codes "Hex decoding error: " ++ m
display (base64_decode m) = codes "Base64 decoding error: " ++ m
display (unsupported_payment_method m) = codes "Unsupported payment method: " ++ m
display (missing_header m) = codes "Missing required header: " ++ m
display (invalid_base64_url m) = codes "Invalid base64url: " ++ m
display (invalid_challenge id reason) = format_invalid_challenge id reason
display (payment_expired e) = format_payment_expired e
display (payment_required realm description) = format_payment_required realm description
display (malformed_credential r) =
    reasoned (codes "Credential is malformed") (codes "Credential is malformed.") r
display (verification_failed r) =
    reasoned (codes "Payment verification failed") (codes "Payment verification failed.") r
display (invalid_payload r) =
    reasoned (codes "Credential payload is invalid") (codes "Credential payload is invalid.") r
display (bad_request r) = reasoned (codes "Bad request") (codes "Bad request.") r
display (insufficient_balance r) =
    reasoned (codes "Insufficient balance") (codes "Insufficient balance.") r
display (invalid_signature r) = reasoned (codes "Invalid signature") (codes "Invalid signature.") r
display (signer_mismatch r) =
    reasoned (codes "Signer mismatch") (codes "Signer is not authorized for this channel.") r
display (amount_exceeds_deposit r) =
    reasoned (codes "Amount exceeds deposit") (codes "Voucher amount exceeds channel deposit.") r
display (delta_too_small r) =
    reasoned (codes "Delta too small") (codes "Amount increase below minimum voucher delta.") r
display (channel_not_found r) =
    reasoned (codes "Channel not found") (codes "No channel with this ID exists.") r
display (channel_closed r) = reasoned (codes "Channel closed") (codes "Channel is closed.") r
display (io m) = codes "IO error: " ++ m
display invalid_utf8 = codes "Invalid UTF-8 in response body"
display (system_time m) = codes "System time error: " ++ m
