-- ===== src/Session/Reading.antt =====
-- The parts of the handlers that leave the store alone, and what a passed check has established.
use mathlib.Core.Path.{subst₂}
use mpp_movement.Prelude.{
  ℕ, ◌≡◌, refl, inl, inr, true, Option, some, ok, err, arith, ◌==◌, length, Bool-cases,
  Option-cases, ok_or, ok_or-eq-ok, ◌&&◌,
}
use mpp_movement.Text.{Text}
use mpp_movement.Voucher.{Bytes, to_array, verify_voucher}
use mpp_movement.Challenge.Types.{Receipt}
use mpp_movement.Errors.{VerificationError}
use mpp_movement.Session.State.{ChannelState, Store, Outcome}
use mpp_movement.Session.Effects.{Rest, Prog, run, ◌>>=◌, lift, call}
use mpp_movement.Session.Chain.{verify_transaction_on_chain, get_on_chain_channel, unprefixed}
use mpp_movement.Session.Payload.{Crates}
use mpp_movement.Session.Handlers.{check_signature, replay_voucher, stored_is}
use mpp_movement.Session.Rules.{lift_rule, read_rule, ok_rule, last_check_rule}

pub to_array-eq-some :
    (n : ℕ) (bs bs' : Bytes) → to_array n bs ≡ some bs' → (bs' ≡ bs) × (length bs ≡ n)
to_array-eq-some n bs bs' e = ground arith

module _ (rest : Rest) (store : Store) where
  abbrev Reads : {A : Type 0} → Prog A → Type 0
  Reads m = (run rest m store).1 ≡ store

  pub verify_transaction_on_chain-Reads :
      (url hash : Text) → Reads (verify_transaction_on_chain url hash)
  unfolding verify_transaction_on_chain run ◌>>=◌ lift call
  verify_transaction_on_chain-Reads url hash = refl

  pub get_on_chain_channel-Reads :
      (decode : Text → Option Bytes) (encode : Bytes → Text) (url module_address registry id : Text)
      → Reads (get_on_chain_channel decode encode url module_address registry id)
  unfolding get_on_chain_channel run ◌>>=◌ lift call
  get_on_chain_channel-Reads decode encode url module_address registry id =
      elim (Option-cases (decode (unprefixed id))) [
        | inl e ↦ rw (e, ok_or) refl
        | inr (bs, e) ↦ rw (e, ok_or) refl
      ]

  module _ (crates : Crates) where
    -- It leaves the store alone, and passes only a signature under the channel's key.
    pub check_signature_lem :
        (channel : ChannelState) (amount : ℕ) (id_bytes sig : Bytes)
        → Reads (check_signature crates channel amount id_bytes sig)
          × ((run rest (check_signature crates channel amount id_bytes sig) store).0 ≡ ok tt
              → verify_voucher crates.crypto id_bytes amount sig channel.authorized_signer_pubkey
                  channel.authorized_signer_pubkey
                ≡ true)
    unfolding check_signature
    check_signature_lem channel amount id_bytes sig =
        lift_rule rest Q store fails _ _ λ sig_array e. lift_rule rest Q store fails _ _ λ key e'.
          last_check_rule rest Q store _ _ (fails _) λ passed. (
            refl,
            λ _.
                subst₂
                  (λ s k.
                    verify_voucher crates.crypto id_bytes amount s k
                      channel.authorized_signer_pubkey
                    ≡ true)
                  (to_array-eq-some 64 sig sig_array (ok_or-eq-ok _ _ e)).0
                  (to_array-eq-some 32 _ key (ok_or-eq-ok _ _ e')).0 passed,
          )
      where
        Q : Outcome (Unit {0}) × Store → Type 0
        Q r =
            (r.1 ≡ store)
            × (r.0 ≡ ok tt
                → verify_voucher crates.crypto id_bytes amount sig channel.authorized_signer_pubkey
                    channel.authorized_signer_pubkey
                  ≡ true)

        fails : (e : VerificationError) → Q (err e, store)
        fails e = (refl, λ h. cc)

    pub replay_voucher-Reads :
        (channel_id : Text) (channel : ChannelState) (amount : ℕ) (signature : Text)
        → Reads (replay_voucher crates channel_id channel amount signature)
    unfolding replay_voucher
    replay_voucher-Reads channel_id channel amount signature =
        lift_rule rest Q store fails _ _ λ sig e.
          elim (Bool-cases (
            stored_is channel.highest_voucher_signature sig
            && (amount == channel.highest_voucher_amount))) [
              | inl replay ↦ rw replay (ok_rule rest Q store refl)
              | inr other ↦ rw other (
                  lift_rule rest Q store fails _ _ λ id_bytes e'.
                    read_rule rest Q store fails _ _
                      (check_signature_lem channel amount id_bytes sig).0
                      λ _ _. ok_rule rest Q store refl)
            ]
      where
        Q : Outcome Receipt × Store → Type 0
        Q r = r.1 ≡ store

        fails : (e : VerificationError) → Q (err e, store)
        fails e = refl
