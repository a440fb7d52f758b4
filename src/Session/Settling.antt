-- ===== src/Session/Settling.antt =====
-- src/protocol/methods/movement/session_method.rs: what a stored channel can be relied on to be
-- between the steps of requests that run at once, and the updaters.
use mpp_movement.Prelude.{
  ℕ, ◌-◌, ◌^◌, ◌≤◌, ◌<◌, ◌≡◌, sym, subst, inl, inr, false, true, none, some, ok, arith, length, leb,
  ltb, leb→le, ltb→lt, Bool-cases,
}
use mpp_movement.Text.{Text}
use mpp_movement.Voucher.{Bytes, verify_voucher}
use mpp_movement.Session.State.{ChannelState}
use mpp_movement.Session.Payload.{Crates}
use mpp_movement.Session.Updating.{deduct, set_deposit, accept, finalize}
use mpp_movement.Session.Handlers.{parse_hex_bytes}
use mpp_movement.Session.Validity.{IsSigned}
use mpp_movement.Session.Updaters.{IsPresented, IsPresented-IsSigned, accepted}
use mpp_movement.Session.Logic.{Preserves}

module _ (crates : Crates) (key_of : Text → Bytes) where
  open crates use {crypto}

  pub record IsSettleable (id : Text) (s : ChannelState) : Type 0 where
    pub named : s.channel_id ≡ id
    pub keyed : s.authorized_signer_pubkey ≡ key_of id
    pub sized : length s.authorized_signer_pubkey ≡ 32
    pub bounded : s.highest_voucher_amount < 2 ^ 64
    pub covered : s.finalized ≡ false → s.spent ≤ s.highest_voucher_amount
    pub signed : IsSigned crates s

  -- A voucher that the key of the channel's id has signed.
  pub record IsVouched (id : Text) (amount : ℕ) (sig : Bytes) : Type 0 where
    pub id_bytes : Bytes
    pub parsed : parse_hex_bytes crates id ≡ ok id_bytes
    pub small : amount < 2 ^ 64
    pub passed : verify_voucher crypto id_bytes amount sig (key_of id) (key_of id) ≡ true

  IsVouched-IsPresented :
      (id : Text) (s : ChannelState) (amount : ℕ) (sig : Bytes)
      → s.authorized_signer_pubkey ≡ key_of id
      → IsVouched id amount sig
      → IsPresented crates id s amount sig
  IsVouched-IsPresented id s amount sig keyed v = record {
    id_bytes = v.id_bytes;
    parsed = v.parsed;
    small = v.small;
    passed =
        subst (λ (k : Bytes). verify_voucher crypto v.id_bytes amount sig k k ≡ true) (sym keyed)
          v.passed;
  }

  IsVouched-IsSigned :
      (id : Text) (s : ChannelState) (amount : ℕ) (sig : Bytes)
      → IsSettleable id s
      → IsVouched id amount sig
      → IsSigned crates (accepted crates s amount sig)
  IsVouched-IsSigned id s amount sig g v =
      IsPresented-IsSigned crates id s amount sig g.named
        (IsVouched-IsPresented id s amount sig g.keyed v)

  pub deduct-Preserves : (id : Text) (amount : ℕ) → Preserves IsSettleable id (deduct amount)
  unfolding deduct
  deduct-Preserves id amount none g = tt
  deduct-Preserves id amount (some s) g =
      elim (Bool-cases (leb amount (s.highest_voucher_amount - s.spent))) [
        | inl enough ↦ rw enough (record {
          named = g.named;
          keyed = g.keyed;
          sized = g.sized;
          bounded = g.bounded;
          covered = λ still. omega (arith, leb→le _ _ enough, g.covered still, g.bounded);
          signed = record {
            signature = g.signed.signature;
            channel_id_bytes = g.signed.channel_id_bytes;
            stored = g.signed.stored;
            decoded = g.signed.decoded;
            verified = g.signed.verified;
          };
        })
        | inr short ↦ rw short tt
      ]

  pub set_deposit-Preserves :
      (id : Text) (new_deposit : ℕ) → Preserves IsSettleable id (set_deposit new_deposit)
  unfolding set_deposit
  set_deposit-Preserves id new_deposit none g = tt
  set_deposit-Preserves id new_deposit (some s) g = record {
    named = g.named;
    keyed = g.keyed;
    sized = g.sized;
    bounded = g.bounded;
    covered = g.covered;
    signed = record {
      signature = g.signed.signature;
      channel_id_bytes = g.signed.channel_id_bytes;
      stored = g.signed.stored;
      decoded = g.signed.decoded;
      verified = g.signed.verified;
    };
  }

  pub accept-Preserves :
      (id : Text) (amount : ℕ) (sig : Bytes)
      → IsVouched id amount sig
      → Preserves IsSettleable id (accept amount sig)
  unfolding accept
  accept-Preserves id amount sig v none g = tt
  accept-Preserves id amount sig v (some s) g =
      elim (Bool-cases (ltb s.highest_voucher_amount amount)) [
        | inl higher ↦ rw higher (record {
          named = g.named;
          keyed = g.keyed;
          sized = g.sized;
          bounded = v.small;
          covered = λ still. omega (arith, ltb→lt _ _ higher, g.covered still);
          signed = IsVouched-IsSigned id s amount sig g v;
        })
        | inr lower ↦ rw lower g
      ]

  pub finalize-Preserves :
      (id : Text) (amount : ℕ) (sig : Bytes)
      → IsVouched id amount sig
      → Preserves IsSettleable id (finalize amount sig)
  unfolding finalize
  finalize-Preserves id amount sig v none g = tt
  finalize-Preserves id amount sig v (some s) g = record {
    named = g.named;
    keyed = g.keyed;
    sized = g.sized;
    bounded = v.small;
    covered = λ still. absurd (cc);
    signed =
        let h = IsVouched-IsSigned id s amount sig g v in
        record {
          signature = h.signature;
          channel_id_bytes = h.channel_id_bytes;
          stored = h.stored;
          decoded = h.decoded;
          verified = h.verified;
        };
  }
