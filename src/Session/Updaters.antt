-- ===== src/Session/Updaters.antt =====
-- What each updater of the handlers makes of a valid channel.
use mpp_movement.Prelude.{
  ℕ, ◌+◌, ◌-◌, ◌%◌, ◌^◌, ◌≤◌, ◌<◌, ◌≡◌, refl, sym, subst, inl, inr, true, some, ok, arith, leb, ltb,
  leb→le, ltb→lt, Bool-cases,
}
use mpp_movement.Text.{Text}
use mpp_movement.Voucher.{Bytes, verify_voucher}
use mpp_movement.Session.State.{ChannelState}
use mpp_movement.Session.Payload.{Crates}
use mpp_movement.Session.Updating.{deduct, set_deposit, accept, finalize}
use mpp_movement.Session.Handlers.{parse_hex_bytes}
use mpp_movement.Session.Validity.{IsSigned, IsValid}

module _ (crates : Crates) where
  open crates use {crypto}

  -- What each updater makes of a valid channel.
  pub deduct-IsValid :
      (id : Text) (s t : ChannelState) (amount : ℕ)
      → IsValid crates id s
      → deduct amount (some s) ≡ ok (some t)
      → IsValid crates id t
  unfolding deduct
  deduct-IsValid id s t amount v e =
      elim (Bool-cases (leb amount (s.highest_voucher_amount - s.spent))) [
        | inl enough ↦ subst (IsValid crates id) (ground (arith, e, enough)) (record {
          named = v.named;
          keyed = v.keyed;
          covered = omega (arith, leb→le _ _ enough, v.covered, v.bounded);
          bounded = v.bounded;
          funded = v.funded;
          signed = resigned v.signed;
        })
        | inr short ↦ absurd (ground (arith, e, short))
      ]
    where
      after_deduct : ChannelState
      after_deduct = record s {
        spent = (s.spent + amount) % 2 ^ 64;
        units = (s.units + 1) % 2 ^ 64;
      }

      resigned : IsSigned crates s → IsSigned crates after_deduct
      resigned g = record {
        signature = g.signature;
        channel_id_bytes = g.channel_id_bytes;
        stored = g.stored;
        decoded = g.decoded;
        verified = g.verified;
      }

  pub set_deposit-IsValid :
      (id : Text) (s t : ChannelState) (new_deposit : ℕ)
      → IsValid crates id s
      → s.deposit < new_deposit
      → set_deposit new_deposit (some s) ≡ ok (some t)
      → IsValid crates id t
  unfolding set_deposit
  set_deposit-IsValid id s t new_deposit v more e =
      subst (IsValid crates id) (ground (arith, e)) (record {
        named = v.named;
        keyed = v.keyed;
        covered = v.covered;
        bounded = v.bounded;
        funded = λ still. omega (arith, v.funded still);
        signed = resigned v.signed;
      })
    where
      resigned : IsSigned crates s → IsSigned crates (record s { deposit = new_deposit })
      resigned g = record {
        signature = g.signature;
        channel_id_bytes = g.channel_id_bytes;
        stored = g.stored;
        decoded = g.decoded;
        verified = g.verified;
      }

  -- A voucher on the channel that the channel's key has signed.
  pub record IsPresented (id : Text) (s : ChannelState) (amount : ℕ) (sig : Bytes) : Type 0 where
    pub id_bytes : Bytes
    pub parsed : parse_hex_bytes crates id ≡ ok id_bytes
    pub small : amount < 2 ^ 64
    pub passed :
        verify_voucher crypto id_bytes amount sig s.authorized_signer_pubkey
          s.authorized_signer_pubkey
        ≡ true

  abbrev pub accepted : ChannelState → ℕ → Bytes → ChannelState
  accepted s amount sig = record s {
    highest_voucher_amount = amount;
    highest_voucher_signature = some sig;
  }

  pub IsPresented-IsSigned :
      (id : Text) (s : ChannelState) (amount : ℕ) (sig : Bytes)
      → s.channel_id ≡ id
      → IsPresented id s amount sig
      → IsSigned crates (accepted s amount sig)
  IsPresented-IsSigned id s amount sig named p = record {
    signature = sig;
    channel_id_bytes = p.id_bytes;
    stored = refl;
    decoded = subst (λ (i : Text). parse_hex_bytes crates i ≡ ok p.id_bytes) (sym named) p.parsed;
    verified = p.passed;
  }

  pub accept-IsValid :
      (id : Text) (s t : ChannelState) (amount : ℕ) (sig : Bytes)
      → IsValid crates id s
      → IsPresented id s amount sig
      → amount ≤ s.deposit
      → accept amount sig (some s) ≡ ok (some t)
      → IsValid crates id t
  unfolding accept
  accept-IsValid id s t amount sig v p within e =
      elim (Bool-cases (ltb s.highest_voucher_amount amount)) [
        | inl higher ↦
            subst (IsValid crates id) {x = accepted s amount sig} (ground (arith, e, higher))
              (record {
                named = v.named;
                keyed = v.keyed;
                covered = omega (arith, ltb→lt _ _ higher, v.covered);
                bounded = p.small;
                funded = λ _. within;
                signed = IsPresented-IsSigned id s amount sig v.named p;
              })
        | inr lower ↦ subst (IsValid crates id) (ground (arith, e, lower)) v
      ]

  pub finalize-IsValid :
      (id : Text) (s t : ChannelState) (amount : ℕ) (sig : Bytes)
      → IsValid crates id s
      → IsPresented id s amount sig
      → s.highest_voucher_amount ≤ amount
      → finalize amount sig (some s) ≡ ok (some t)
      → IsValid crates id t
  unfolding finalize
  finalize-IsValid id s t amount sig v p above e =
      subst (IsValid crates id) {x = finalized_state} (ground (arith, e)) (record {
        named = v.named;
        keyed = v.keyed;
        covered = omega (arith, above, v.covered);
        bounded = p.small;
        funded = λ h. cc;
        signed = resigned (IsPresented-IsSigned id s amount sig v.named p);
      })
    where
      finalized_state : ChannelState
      finalized_state = record s {
        highest_voucher_amount = amount;
        highest_voucher_signature = some sig;
        finalized = true;
      }

      resigned : IsSigned crates (accepted s amount sig) → IsSigned crates finalized_state
      resigned g = record {
        signature = g.signature;
        channel_id_bytes = g.channel_id_bytes;
        stored = g.stored;
        decoded = g.decoded;
        verified = g.verified;
      }
