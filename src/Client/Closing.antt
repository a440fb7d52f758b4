-- ===== src/Client/Closing.antt =====
-- src/client/movement/session.rs: the sum of the open channel, and the credential of a close.
use mpp_movement.Prelude.{ℕ, [], ◌∷◌, Option, none, some, if◌then◌else◌, and_then}
use mpp_movement.Text.{codes}
use mpp_movement.Text.Number.{to_string}
use mpp_movement.Json.{Json, str, obj, end, field}
use mpp_movement.Map.{Map}
use mpp_movement.Voucher.{sign_voucher}
use mpp_movement.Challenge.{to_echo}
use mpp_movement.Challenge.Types.{PaymentCredential}
use mpp_movement.Client.{ClientCrates, ChannelEntry, MovementSessionProvider, hex_text, credential}

module _ (crates : ClientCrates) where
  open crates use {crypto}

  abbrev open_values : Map ChannelEntry → Option ChannelEntry
  open_values [] = none
  open_values ((key, entry) ∷ channels) = if entry.opened then some entry else open_values channels

  -- `cumulative`: that of the first open channel, in the order in which the map lists them.
  unfoldable pub cumulative : MovementSessionProvider crates → ℕ
  cumulative p = elim (open_values p.channels) [ none ↦ 0 | some entry ↦ entry.cumulative_amount ]

  unfoldable pub close_payload : MovementSessionProvider crates → ChannelEntry → Json
  close_payload p entry = obj (
      field (codes "action") (str (codes "close")) (
        field (codes "channelId") (str (hex_text crates entry.channel_id)) (
          field (codes "cumulativeAmount") (str (to_string entry.cumulative_amount)) (
            field (codes "signature")
              (str (
                hex_text crates
                  (sign_voucher crypto p.signing_key entry.channel_id entry.cumulative_amount)))
              end))))

  -- The credential that `close` posts, if a challenge has been seen and a channel is open.
  unfoldable pub close_credential : MovementSessionProvider crates → Option PaymentCredential
  close_credential p = and_then p.last_challenge λ challenge.
      and_then (open_values p.channels)
        λ entry. some (credential crates (to_echo challenge) (close_payload p entry))
