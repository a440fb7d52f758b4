-- ===== src/Session/Race.antt =====
-- src/protocol/methods/movement/session_method.rs: `handle_close` beside requests that run between
-- its read and its write of the channel.
use mpp_movement.Prelude.{ℕ, ◌≤◌, ◌≡◌, refl, ap, true, false, not, some, ok, le→leb}
use mpp_movement.Text.{Text}
use mpp_movement.Text.Number.{parse_u64}
use mpp_movement.Map.{lookup, insert}
use mpp_movement.Voucher.{Bytes, sign_voucher}
use mpp_movement.Voucher.Signing.{IsCorrect, key_bytes, verify_voucher-sign_voucher}
use mpp_movement.Session.State.{ChannelState, Store, get_channel, update_channel}
use mpp_movement.Session.Effects.{done, HttpAnswer, ◌>>=◌, lift, check, get, update}
use mpp_movement.Session.Payload.{Crates}
use mpp_movement.Session.Updating.{finalize}
use mpp_movement.Session.Handlers.{handle_close, success, check_signature, sized}
use mpp_movement.Session.Honest.{IsHonest, sized_ok, signature_length}
use mpp_movement.Session.Schedule.{resume}

-- A channel as `finalize` writes it.
abbrev pub closed : ChannelState → ℕ → Bytes → ChannelState
closed t amount sig = record t {
  highest_voucher_amount = amount;
  highest_voucher_signature = some sig;
  finalized = true;
}

module _ (crates : Crates) (correct : IsCorrect crates.crypto) where
  open crates use {crypto}

  passes :
      (s : ChannelState) (signer : crypto.SigningKey) (id_bytes : Bytes) (amount : ℕ)
      → s.authorized_signer_pubkey ≡ key_bytes crypto signer
      → check_signature crates s amount id_bytes (sign_voucher crypto signer id_bytes amount)
        ≡ done (ok tt)
  unfolding check_signature ◌>>=◌ lift check
  passes s signer id_bytes amount keyed =
      rw
        (
          sized_ok crates correct 64 _ (signature_length crates correct signer id_bytes amount),
          sized,
        )
        (rw keyed (
          rw
            (
              sized_ok crates correct 32 (key_bytes crypto signer) (correct.length-to_bytes _),
              sized,
            )
            (rw (verify_voucher-sign_voucher crypto correct signer id_bytes amount) refl)))

  -- A close by the holder of the channel's key, at the highest voucher or above when it reads the
  -- channel, writes its own amount when it next runs, whatever vouchers, charges and top-ups have
  -- made of the channel meanwhile: a higher voucher is lost, and more may have been spent.
  pub close_overwrites :
      (id cumulative signature : Text) (s t : ChannelState) (signer : crypto.SigningKey)
      (amount : ℕ) (store later : Store) (a b : HttpAnswer)
      → lookup id store ≡ some s
      → s.finalized ≡ false
      → parse_u64 cumulative ≡ some amount
      → s.highest_voucher_amount ≤ amount
      → (h : IsHonest crates correct s signer id signature amount) → lookup id later ≡ some t
      → resume b (resume a (handle_close crates id cumulative signature) store).0 later ≡ (
        done (ok (success crates id)),
        insert id (closed t amount (sign_voucher crypto signer h.id_bytes amount)) later,
      )
  unfolding handle_close resume ◌>>=◌ lift check get update get_channel update_channel finalize
  close_overwrites id cumulative signature s t signer amount store later a b found still parsed
        above h stored =
      rw (found, resume)
        (rw (open_still) (
          rw (parsed) (
            rw (le→leb _ _ above) (
              rw (h.decoded) (
                rw (h.signed)
                  (rw (passes s signer h.id_bytes amount h.keyed) (rw (stored) refl)))))))
    where
      open_still : not s.finalized ≡ true
      open_still = ap not still
