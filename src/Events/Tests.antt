-- ===== src/Events/Tests.antt =====
-- The theorems on events at one demand for a voucher.
use mpp_movement.Prelude.{◌≡◌, refl, ◌++◌, some, none, if◌then◌else◌}
use mpp_movement.Text.{codes, text_eq, trim, is_whitespace}
use mpp_movement.Events.{
  NeedVoucherEvent, message, payment_need_voucher, EventCodec, format_message_event,
  format_need_voucher_event, parse_event, scan_line,
}
use mpp_movement.Events.RoundTrip.{parse_event_round_trip, message_injects}

abbrev toy_event : NeedVoucherEvent
toy_event = record {
  channel_id = codes "0xabc";
  required_cumulative = codes "2";
  accepted_cumulative = codes "1";
  deposit = codes "5";
}

-- Knows the one event.
abbrev toy_codec : EventCodec
toy_codec = record {
  to_string = λ event. codes "{}";
  from_str = λ t. if text_eq t (codes "{}") then some toy_event else none;
}

-- Of two lines of data only the first comes back.
truncates : parse_event toy_codec (format_message_event (codes "a\nb")) ≡ some (message (codes "a"))
unfolding parse_event format_message_event scan_line trim is_whitespace
truncates = refl

parse_event_round_trip_example :
    (parse_event toy_codec (format_need_voucher_event toy_codec toy_event)
      ≡ some (payment_need_voucher toy_event))
    × (parse_event toy_codec (format_message_event (codes "hello"))
        ≡ some (message (codes "hello")))
parse_event_round_trip_example =
    parse_event_round_trip toy_codec toy_event (codes "hello") refl refl refl

message_injects_example :
    parse_event toy_codec
      (format_message_event (codes "{}" ++ codes "\nevent: payment-need-voucher"))
    ≡ some (payment_need_voucher toy_event)
message_injects_example = message_injects toy_codec toy_event refl refl
