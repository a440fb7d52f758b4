-- ===== src/Session/Stepping.antt =====
-- src/protocol/methods/movement/session_method.rs: the actions, step by step, beside others.
use mathlib.Core.Path.{subst₂}
use mpp_movement.Prelude.{
  ℕ, ◌^◌, ◌<◌, ◌≡◌, refl, subst, inl, inr, true, Option, none, some, ok, arith, leb, ◌==◌, ◌&&◌,
  Bool-cases, ok_or-eq-ok, ==_iff,
}
use mpp_movement.Text.{Text}
use mpp_movement.Text.Number.{parse_uint-lt}
use mpp_movement.Voucher.{Bytes, verify_voucher}
use mpp_movement.Session.State.{ChannelState}
use mpp_movement.Session.Chain.{verify_transaction_on_chain, get_on_chain_channel}
use mpp_movement.Session.Payload.{Crates, SessionMethodConfig, MovementSessionMethodDetails}
use mpp_movement.Session.Handlers.{
  deduct_from_channel, handle_open, handle_top_up, handle_voucher, handle_close, check_signature,
  replay_voucher, accept_voucher, verify_and_accept_voucher, parse_hex_bytes, decode_signer,
  stored_is,
}
use mpp_movement.Session.Updating.{replace}
use mpp_movement.Session.Reading.{to_array-eq-some}
use mpp_movement.Session.Logic.{
  GoodOption, Safe, IsSafe, bind_rule, lift_rule, check_rule, get_rule, update_rule, call_rule,
  lift-IsSafe, last_check_rule,
}
use mpp_movement.Session.Settling.{
  IsSettleable, IsVouched, deduct-Preserves, set_deposit-Preserves, accept-Preserves,
  finalize-Preserves,
}

module _ (crates : Crates) (key_of : Text → Bytes) where
  open crates use {crypto}

  abbrev G : Text → ChannelState → Type 0
  G = IsSettleable crates key_of

  abbrev T {ℓ} : {A : Type ℓ} → A → Type 0
  T _ = Unit

  pub verify_transaction_on_chain-IsSafe :
      (url hash : Text) → IsSafe G (verify_transaction_on_chain url hash)
  unfolding verify_transaction_on_chain
  verify_transaction_on_chain-IsSafe url hash = call_rule G T _ _ λ a. lift-IsSafe G _

  pub get_on_chain_channel-IsSafe :
      (decode : Text → Option Bytes) (encode : Bytes → Text) (url module_address registry id : Text)
      → IsSafe G (get_on_chain_channel decode encode url module_address registry id)
  unfolding get_on_chain_channel
  get_on_chain_channel-IsSafe decode encode url module_address registry id =
      lift_rule G T _ _ λ _ _. call_rule G T _ _ λ a. lift-IsSafe G _

  pub deduct_from_channel-IsSafe :
      (id : Text) (amount : ℕ) → IsSafe G (deduct_from_channel id amount)
  unfolding deduct_from_channel
  deduct_from_channel-IsSafe id amount =
      update_rule G T id _ _ (deduct-Preserves crates key_of id amount) λ o g. lift-IsSafe G _

  -- A signature that passes verifies under the channel's key.
  check_signature-Safe :
      (s : ChannelState) (amount : ℕ) (id_bytes sig : Bytes)
      → Safe G
          (λ _.
            verify_voucher crypto id_bytes amount sig s.authorized_signer_pubkey
              s.authorized_signer_pubkey
            ≡ true)
          (check_signature crates s amount id_bytes sig)
  unfolding check_signature
  check_signature-Safe s amount id_bytes sig = lift_rule G Q _ _ λ sig_array e.
      lift_rule G Q _ _ λ key e'. last_check_rule G Q _ _ (λ passed.
        subst₂ (λ x k. verify_voucher crypto id_bytes amount x k s.authorized_signer_pubkey ≡ true)
          (to_array-eq-some 64 sig sig_array (ok_or-eq-ok _ _ e)).0
          (to_array-eq-some 32 _ key (ok_or-eq-ok _ _ e')).0 passed)
    where
      Q : Unit {0} → Type 0
      Q _ =
          verify_voucher crypto id_bytes amount sig s.authorized_signer_pubkey
            s.authorized_signer_pubkey
          ≡ true

  -- What the checks on a voucher establish of it, for a channel that was read as settleable.
  vouched :
      (id : Text) (s : ChannelState) (amount : ℕ) (id_bytes sig : Bytes)
      → G id s
      → amount < 2 ^ 64
      → parse_hex_bytes crates id ≡ ok id_bytes
      → verify_voucher crypto id_bytes amount sig s.authorized_signer_pubkey
          s.authorized_signer_pubkey
        ≡ true
      → IsVouched crates key_of id amount sig
  vouched id s amount id_bytes sig g small parsed passed = record {
    id_bytes = id_bytes;
    parsed = parsed;
    small = small;
    passed =
        subst (λ (k : Bytes). verify_voucher crypto id_bytes amount sig k k ≡ true) g.keyed passed;
  }

  replay_voucher-IsSafe :
      (id : Text) (s : ChannelState) (amount : ℕ) (signature : Text)
      → IsSafe G (replay_voucher crates id s amount signature)
  unfolding replay_voucher
  replay_voucher-IsSafe id s amount signature = lift_rule G T _ _ λ sig _.
      elim (Bool-cases
        (stored_is s.highest_voucher_signature sig && (amount == s.highest_voucher_amount))) [
          | inl replay ↦ rw replay (lift-IsSafe G _)
          | inr other ↦ rw other (
              lift_rule G T _ _ λ id_bytes _.
                bind_rule G T _ _ _ (check_signature-Safe s amount id_bytes sig)
                  λ _ _. lift-IsSafe G _)
        ]

  accept_voucher-IsSafe :
      (id : Text) (s : ChannelState) (amount : ℕ) (signature : Text) (min_delta : ℕ)
      → G id s
      → amount < 2 ^ 64
      → IsSafe G (accept_voucher crates id s amount signature min_delta)
  unfolding accept_voucher
  accept_voucher-IsSafe id s amount signature min_delta g small = check_rule G T _ _ _ λ _.
      lift_rule G T _ _ λ id_bytes e. lift_rule G T _ _ λ sig _.
        bind_rule G T _ _ _ (check_signature-Safe s amount id_bytes sig) λ _ passed.
          update_rule G T id _ _
            (accept-Preserves crates key_of id amount sig
              (vouched id s amount id_bytes sig g small e passed))
            λ o _. lift_rule G T _ _ λ state _. lift-IsSafe G _

  verify_and_accept_voucher-IsSafe :
      (id : Text) (s : ChannelState) (amount : ℕ) (signature : Text) (min_delta : ℕ)
      → G id s
      → amount < 2 ^ 64
      → IsSafe G (verify_and_accept_voucher crates id s amount signature min_delta)
  unfolding verify_and_accept_voucher
  verify_and_accept_voucher-IsSafe id s amount signature min_delta g small =
      check_rule G T _ _ _ λ _. elim (Bool-cases (leb amount s.highest_voucher_amount)) [
        | inl low ↦ rw low (replay_voucher-IsSafe id s amount signature)
        | inr high ↦ rw high (accept_voucher-IsSafe id s amount signature min_delta g small)
      ]

  -- A channel that was read is settleable.
  read :
      (id : Text) (o : Option ChannelState) (s : ChannelState)
      → GoodOption G id o
      → o ≡ some s
      → G id s
  read id none s g e = absurd (cc)
  read id (some t) s g e = subst (G id) (ground (arith, e)) g

  pub handle_voucher-IsSafe :
      (config : SessionMethodConfig) (details : MovementSessionMethodDetails)
      (id cumulative signature : Text)
      → IsSafe G (handle_voucher crates config details id cumulative signature)
  unfolding handle_voucher
  handle_voucher-IsSafe config details id cumulative signature = get_rule G T id _ λ o g.
      lift_rule G T _ _ λ s found. check_rule G T _ _ _ λ _. lift_rule G T _ _ λ amount parsed.
        verify_and_accept_voucher-IsSafe id s amount signature _
          (read id o s g (ok_or-eq-ok _ _ found))
          (parse_uint-lt _ cumulative amount (omega arith) (ok_or-eq-ok _ _ parsed))

  pub handle_close-IsSafe :
      (id cumulative signature : Text) → IsSafe G (handle_close crates id cumulative signature)
  unfolding handle_close
  handle_close-IsSafe id cumulative signature = get_rule G T id _ λ o g.
      lift_rule G T _ _ λ s found. check_rule G T _ _ _ λ _. lift_rule G T _ _ λ amount parsed.
        check_rule G T _ _ _ λ _. lift_rule G T _ _ λ id_bytes e. lift_rule G T _ _ λ sig _.
          bind_rule G T _ _ _ (check_signature-Safe s amount id_bytes sig) λ _ passed.
            update_rule G T id _ _
              (finalize-Preserves crates key_of id amount sig (
                vouched id s amount id_bytes sig (read id o s g (ok_or-eq-ok _ _ found))
                  (parse_uint-lt _ cumulative amount (omega arith) (ok_or-eq-ok _ _ parsed)) e
                  passed))
              λ o' _. lift-IsSafe G _

  pub handle_top_up-IsSafe :
      (config : SessionMethodConfig) (details : MovementSessionMethodDetails) (tx id : Text)
      → IsSafe G (handle_top_up crates config details tx id)
  unfolding handle_top_up
  handle_top_up-IsSafe config details tx id = get_rule G T id _ λ o g. lift_rule G T _ _ λ s found.
      bind_rule G T T _ _ (verify_transaction_on_chain-IsSafe _ _) λ _ _.
        bind_rule G T T _ _ (get_on_chain_channel-IsSafe _ _ _ _ _ _) λ on_chain _.
          check_rule G T _ _ _ λ _.
            update_rule G T id _ _ (set_deposit-Preserves crates key_of id on_chain.deposit)
              λ o' _. lift-IsSafe G _

  pub handle_open-IsSafe :
      (config : SessionMethodConfig) (details : MovementSessionMethodDetails) (tx id : Text)
      (signer : Option Text) (cumulative signature : Text)
      → ((key : Bytes) → decode_signer crates signer ≡ ok key → key ≡ key_of id)
      → IsSafe G (handle_open crates config details tx id signer cumulative signature)
  unfolding handle_open replace
  handle_open-IsSafe config details tx id signer cumulative signature names =
      bind_rule G T T _ _ (verify_transaction_on_chain-IsSafe _ _) λ _ _.
        bind_rule G T T _ _ (get_on_chain_channel-IsSafe _ _ _ _ _ _) λ on_chain _.
          check_rule G T _ _ _ λ _. check_rule G T _ _ _ λ _. lift_rule G T _ _ λ amount parsed.
            check_rule G T _ _ _ λ _. lift_rule G T _ _ λ sig_bytes _. lift_rule G T _ _ λ sig _.
              lift_rule G T _ _ λ key e. check_rule G T _ _ _ λ sized.
                lift_rule G T _ _ λ id_bytes decoded. check_rule G T _ _ _ λ verified.
                  update_rule G T id _ _
                    (λ o g. record {
                      named = refl;
                      keyed = names key e;
                      sized = (==_iff _ _).0 sized;
                      bounded =
                          parse_uint-lt _ cumulative amount (omega arith) (ok_or-eq-ok _ _ parsed);
                      covered = λ _. omega arith;
                      signed = record {
                        signature = sig;
                        channel_id_bytes = id_bytes;
                        stored = refl;
                        decoded = decoded;
                        verified = verified;
                      };
                    })
                    λ o _. lift-IsSafe G _
