-- ===== src/Session/Validity.antt =====
-- src/protocol/methods/movement/session_method.rs: the invariant of the channel
-- store.
use mpp_movement.Prelude.{
  ◌^◌, ◌≤◌, ◌<◌, ◌≡◌, refl, true, false, Option, none, some, ok, err, length,
}
use mpp_movement.Text.{Text}
use mpp_movement.Map.{Holds, Holds-insert, Holds-remove}
use mpp_movement.Voucher.{Bytes, verify_voucher}
use mpp_movement.Session.State.{ChannelState, Store, Outcome, commit}
use mpp_movement.Session.Payload.{Crates}
use mpp_movement.Session.Handlers.{parse_hex_bytes}

module _ (crates : Crates) where
  open crates use {crypto}

  -- The highest voucher can be settled: its signature is stored and verifies under the channel's key.
  pub record IsSigned (s : ChannelState) : Type 0 where
    pub signature : Bytes
    pub channel_id_bytes : Bytes
    pub stored : s.highest_voucher_signature ≡ some signature
    pub decoded : parse_hex_bytes crates s.channel_id ≡ ok channel_id_bytes
    pub verified :
        verify_voucher crypto channel_id_bytes s.highest_voucher_amount signature
          s.authorized_signer_pubkey s.authorized_signer_pubkey
        ≡ true

  pub record IsValid (id : Text) (s : ChannelState) : Type 0 where
    pub named : s.channel_id ≡ id
    pub keyed : length s.authorized_signer_pubkey ≡ 32
    pub covered : s.spent ≤ s.highest_voucher_amount
    pub bounded : s.highest_voucher_amount < 2 ^ 64
    pub funded : s.finalized ≡ false → s.highest_voucher_amount ≤ s.deposit
    pub signed : IsSigned s

  abbrev pub AllValid : Store → Type 0
  AllValid = Holds IsValid

  -- A commit keeps the invariant where the updater turns a valid channel into a valid one.
  pub commit-AllValid :
      (store : Store) (id : Text) (r : Outcome (Option ChannelState))
      → AllValid store
      → ((s : ChannelState) → r ≡ ok (some s) → IsValid id s)
      → AllValid (commit id r store).1
  commit-AllValid store id (ok (some s)) all h = Holds-insert IsValid store id s all (h s refl)
  commit-AllValid store id (ok none) all h = Holds-remove IsValid store id all
  commit-AllValid store id (err e) all h = all
