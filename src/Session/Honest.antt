-- ===== src/Session/Honest.antt =====
-- src/protocol/methods/movement/session_method.rs: vouchers by the holder of a
-- channel's key.
use mpp_movement.Prelude.{
  ℕ, ◌-◌, ◌≤◌, ◌<◌, ◌≡◌, refl, ap, ◌∙◌, true, false, not, some, ok, arith, leb, ok_or, length,
  le→leb, lt→ltb, ==_iff,
}
use mpp_movement.Text.{Text}
use mpp_movement.Text.Number.{parse_u64}
use mpp_movement.Map.{lookup, insert}
use mpp_movement.Voucher.{Bytes, sign_voucher}
use mpp_movement.Voucher.Signing.{IsCorrect, key_bytes, verify_voucher-sign_voucher}
use mpp_movement.Challenge.Types.{Receipt}
use mpp_movement.Errors.{with_code, channel_not_found}
use mpp_movement.Session.State.{ChannelState, Store, get_channel, update_channel}
use mpp_movement.Session.Effects.{Prog, Rest, run, ◌>>=◌, lift, check, get, update}
use mpp_movement.Session.Payload.{Crates, SessionMethodConfig, MovementSessionMethodDetails}
use mpp_movement.Session.Updating.{accept}
use mpp_movement.Session.Rules.{run-bind, continue}
use mpp_movement.Session.Updaters.{accepted}
use mpp_movement.Session.Handlers.{
  parse_hex_bytes, success, sized, check_signature, accept_voucher, verify_and_accept_voucher,
  handle_voucher, resolve_min_delta,
}

module _ (crates : Crates) (correct : IsCorrect crates.crypto) where
  open crates use {crypto}

  -- A voucher by the holder of a channel's key.
  pub record IsHonest (s : ChannelState) (signer : crypto.SigningKey) (id signature : Text)
      (amount : ℕ) : Type 0 where
    pub id_bytes : Bytes
    pub keyed : s.authorized_signer_pubkey ≡ key_bytes crypto signer
    pub decoded : parse_hex_bytes crates id ≡ ok id_bytes
    pub signed : parse_hex_bytes crates signature ≡ ok (sign_voucher crypto signer id_bytes amount)

  pub sized_ok : (n : ℕ) (bs : Bytes) → length bs ≡ n → sized crates n bs ≡ ok bs
  sized_ok n bs e = rw ((==_iff (length bs) n).1 e) refl

  pub signature_length :
      (signer : crypto.SigningKey) (id_bytes : Bytes) (amount : ℕ)
      → length (sign_voucher crypto signer id_bytes amount) ≡ 64
  unfolding sign_voucher
  signature_length signer id_bytes amount = correct.length-sign signer _

  module _ (rest : Rest) where
    signature_passes :
        (s : ChannelState) (signer : crypto.SigningKey) (id_bytes : Bytes) (amount : ℕ)
        (store : Store)
        → s.authorized_signer_pubkey ≡ key_bytes crypto signer
        → run rest
            (check_signature crates s amount id_bytes (sign_voucher crypto signer id_bytes amount))
            store
          ≡ (ok tt, store)
    unfolding check_signature run ◌>>=◌ lift check
    signature_passes s signer id_bytes amount store keyed =
        rw (sized_ok 64 sig (signature_length signer id_bytes amount), sized)
          (rw (keyed) (
            rw (sized_ok 32 (key_bytes crypto signer) (correct.length-to_bytes _), sized)
              (rw (verify_voucher-sign_voucher crypto correct signer id_bytes amount) refl)))
      where
        sig : Bytes
        sig = sign_voucher crypto signer id_bytes amount

    -- What follows the check of the signature.
    abbrev storing : Text → ℕ → Bytes → Prog Receipt
    storing id amount sig = do
      updated ← update id (accept amount sig)
      state ← lift (ok_or updated (with_code channel_not_found))
      lift (ok (success crates state.channel_id))

    storing_lem :
        (s : ChannelState) (id : Text) (amount : ℕ) (sig : Bytes) (store : Store)
        → lookup id store ≡ some s
        → s.highest_voucher_amount < amount
        → run rest (storing id amount sig) store
          ≡ (ok (success crates s.channel_id), insert id (accepted crates s amount sig) store)
    unfolding run ◌>>=◌ lift update update_channel accept
    storing_lem s id amount sig store found above = rw (found, run) (rw (lt→ltb _ _ above) refl)

    stores :
        (s : ChannelState) (signer : crypto.SigningKey) (id signature : Text) (amount min_delta : ℕ)
        (store : Store)
        → lookup id store ≡ some s
        → s.highest_voucher_amount < amount
        → min_delta ≤ amount - s.highest_voucher_amount
        → (h : IsHonest s signer id signature amount)
        → run rest (accept_voucher crates id s amount signature min_delta) store ≡ (
          ok (success crates s.channel_id),
          insert id (accepted crates s amount (sign_voucher crypto signer h.id_bytes amount)) store,
        )
    unfolding accept_voucher run ◌>>=◌ lift check
    stores s signer id signature amount min_delta store found above step h = rw (le→leb _ _ step) (
        rw (h.decoded) (
          rw (h.signed) (
            run-bind rest (check_signature crates s amount h.id_bytes sig)
              (λ _. storing id amount sig) store
            ∙ (ap (continue rest (λ _. storing id amount sig))
                  (signature_passes s signer h.id_bytes amount store h.keyed)
                ∙ storing_lem s id amount sig store found above))))
      where
        sig : Bytes
        sig = sign_voucher crypto signer h.id_bytes amount

    -- A voucher by the holder of the channel's key, above the highest one by the smallest step at
    -- least, and within the deposit, is accepted on a stored channel that is not finalized: the channel
    -- then holds its amount and its signature, and is otherwise as it was.
    pub handle_voucher_accepts :
        (config : SessionMethodConfig) (details : MovementSessionMethodDetails)
        (id cumulative signature : Text) (s : ChannelState) (signer : crypto.SigningKey)
        (amount : ℕ) (store : Store)
        → lookup id store ≡ some s
        → s.finalized ≡ false
        → parse_u64 cumulative ≡ some amount
        → s.highest_voucher_amount < amount
        → amount ≤ s.deposit
        → resolve_min_delta crates config details ≤ amount - s.highest_voucher_amount
        → (h : IsHonest s signer id signature amount)
        → run rest (handle_voucher crates config details id cumulative signature) store ≡ (
          ok (success crates s.channel_id),
          insert id (accepted crates s amount (sign_voucher crypto signer h.id_bytes amount)) store,
        )
    unfolding handle_voucher verify_and_accept_voucher run ◌>>=◌ lift check get get_channel
    handle_voucher_accepts config details id cumulative signature s signer amount store found still
          parsed above within step h =
        rw (found, run)
          (rw (open_still) (
            rw (parsed) (
              rw (le→leb _ _ within)
                (rw (not_low) (stores s signer id signature amount _ store found above step h)))))
      where
        open_still : not s.finalized ≡ true
        open_still = ap not still

        not_low : leb amount s.highest_voucher_amount ≡ false
        not_low = ground (arith, above)
