-- ===== src/Events/RoundTrip.antt =====
-- src/server/sse.rs: events that are written and read.
use mathlib.Core.List.{append_assoc}
use mpp_movement.Prelude.{◌≡◌, refl, ap, false, ◌++◌, some}
use mpp_movement.Text.{Text, codes, trim, contains_char, is_whitespace}
use mpp_movement.Text.Splitting.{split-append}
use mpp_movement.Events.{
  NeedVoucherEvent, message, payment_need_voucher, EventCodec, format_message_event,
  format_need_voucher_event, parse_event, scan_line, needed,
}

-- A text of one line.
abbrev pub OneLine : Text → Type 0
OneLine s = contains_char b'\n' s ≡ false

-- Application data of one line comes back from its event.
pub message_round_trip :
    (codec : EventCodec) (text : Text)
    → OneLine text
    → parse_event codec (format_message_event text) ≡ some (message text)
unfolding parse_event format_message_event scan_line trim is_whitespace
message_round_trip codec text h = rw (split-append b'\n' text (codes "\n") h) refl

-- A demand for a voucher whose JSON is one line and reads back comes back from its event, and so does
-- application data of one line.
pub parse_event_round_trip :
    (codec : EventCodec) (event : NeedVoucherEvent) (text : Text)
    → OneLine (codec.to_string event)
    → codec.from_str (codec.to_string event) ≡ some event
    → OneLine text
    → (parse_event codec (format_need_voucher_event codec event)
        ≡ some (payment_need_voucher event))
      × (parse_event codec (format_message_event text) ≡ some (message text))
unfolding parse_event format_need_voucher_event scan_line trim is_whitespace
parse_event_round_trip codec event text one read h = (
  rw (split-append b'\n' (codec.to_string event) (codes "\n") one) (ap (needed codec) read),
  message_round_trip codec text h,
)

-- Application data that spells the JSON of a demand for a voucher and, on a second line, the type of
-- its event, is read as that demand.
pub message_injects :
    (codec : EventCodec) (event : NeedVoucherEvent)
    → OneLine (codec.to_string event)
    → codec.from_str (codec.to_string event) ≡ some event
    → parse_event codec
        (format_message_event (codec.to_string event ++ codes "\nevent: payment-need-voucher"))
      ≡ some (payment_need_voucher event)
unfolding parse_event format_message_event scan_line trim is_whitespace
message_injects codec event one read =
    rw
      (
        append_assoc (codec.to_string event) (codes "\nevent: payment-need-voucher") (codes "\n\n"),
        split-append b'\n' (codec.to_string event) (codes "event: payment-need-voucher\n\n") one,
      )
      (ap (needed codec) read)
