-- ===== src/Events.antt =====
-- src/server/sse.rs: the events of a metered stream. serde_json and Unicode's lower case are
-- parameters.
pub mod RoundTrip
pub mod Tests
use mpp_movement.Prelude.{◌++◌, List, [], ◌∷◌, Option, none, some, Bool, is_empty, if◌then◌else◌}
use mpp_movement.Text.{Text, codes, text_eq, split, join, trim, strip_prefix, starts_with}

pub record NeedVoucherEvent : Type 0 where
  pub channel_id : Text
  pub required_cumulative : Text
  pub accepted_cumulative : Text
  pub deposit : Text

pub data SseEvent : Type 0 where
  message : Text → SseEvent
  payment_need_voucher : NeedVoucherEvent → SseEvent

-- `serde_json::to_string` and `from_str` of a `NeedVoucherEvent`.
pub record EventCodec : Type 0 where
  pub to_string : NeedVoucherEvent → Text
  pub from_str : Text → Option NeedVoucherEvent

unfoldable pub format_message_event : Text → Text
format_message_event text = codes "event: message\ndata: " ++ (text ++ codes "\n\n")

-- The type of the event, and its lines of data, that a row of lines has given so far.
abbrev pub Scan : Type 0
Scan = Text × List Text

abbrev pub scan_data : Text → Scan → Option Text → Scan
scan_data line (event_type, data_lines) (some rest) = (event_type, data_lines ++ rest ∷ [])
scan_data line (event_type, data_lines) none =
    if text_eq line (codes "data:")
    then (event_type, data_lines ++ [] ∷ [])
    else (event_type, data_lines)

abbrev pub scan_event : Text → Scan → Option Text → Scan
scan_event line (event_type, data_lines) (some rest) = (trim rest, data_lines)
scan_event line scan none = scan_data line scan (strip_prefix (codes "data: ") line)

unfoldable pub scan_line : Scan → Text → Scan
scan_line scan line = scan_event line scan (strip_prefix (codes "event: ") line)

abbrev pub scan_lines : Scan → List Text → Scan
scan_lines scan [] = scan
scan_lines scan (line ∷ lines) = scan_lines (scan_line scan line) lines

module _ (codec : EventCodec) where
  unfoldable pub format_need_voucher_event : NeedVoucherEvent → Text
  format_need_voucher_event event =
      codes "event: payment-need-voucher\ndata: " ++ (codec.to_string event ++ codes "\n\n")

  abbrev pub needed : Option NeedVoucherEvent → Option SseEvent
  needed none = none
  needed (some event) = some (payment_need_voucher event)

  abbrev pub event_of : Scan → Option SseEvent
  event_of (event_type, data_lines) =
      if is_empty data_lines
      then none
      else if text_eq event_type (codes "message")
      then some (message (join (codes "\n") data_lines))
      else if text_eq event_type (codes "payment-need-voucher")
      then needed (codec.from_str (join (codes "\n") data_lines))
      else some (message (join (codes "\n") data_lines))

  unfoldable pub parse_event : Text → Option SseEvent
  parse_event raw = event_of (scan_lines (codes "message", []) (split b'\n' raw))

unfoldable pub is_event_stream : (Text → Text) → Text → Bool
is_event_stream to_lowercase content_type =
    starts_with (codes "text/event-stream") (to_lowercase content_type)

abbrev pub sse_headers : List (Text × Text)
sse_headers =
    (codes "Cache-Control", codes "no-cache, no-transform")
    ∷ (codes "Connection", codes "keep-alive")
    ∷ (codes "Content-Type", codes "text/event-stream; charset=utf-8")
    ∷ []
