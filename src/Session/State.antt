-- ===== src/Session/State.antt =====
-- src/protocol/methods/movement/session_method.rs: the state of a channel and its in-memory store.
use mpp_movement.Prelude.{ℕ, Bool, Option, none, some, Result, ok, err}
use mpp_movement.Text.{Text}
use mpp_movement.Map.{Map, lookup, insert, remove}
use mpp_movement.Voucher.{Bytes}
use mpp_movement.Errors.{VerificationError}

pub record ChannelState : Type 0 where
  pub channel_id : Text
  pub module_address : Text
  pub registry_address : Text
  pub payer : Text
  pub payee : Text
  pub token : Text
  pub authorized_signer_pubkey : Bytes
  pub deposit : ℕ
  pub settled_on_chain : ℕ
  pub highest_voucher_amount : ℕ
  pub highest_voucher_signature : Option Bytes
  pub spent : ℕ
  pub units : ℕ
  pub finalized : Bool
  pub created_at : Text

-- `InMemoryChannelStore`.
abbrev pub Store : Type 0
Store = Map ChannelState

abbrev pub Outcome : Type 0 → Type 0
Outcome A = Result VerificationError A

abbrev pub Updater : Type 0
Updater = Option ChannelState → Outcome (Option ChannelState)

unfoldable pub get_channel : Text → Store → Outcome (Option ChannelState)
get_channel channel_id store = ok (lookup channel_id store)

-- The store under the lock: a failed update leaves it as it was.
abbrev pub commit :
    Text → Outcome (Option ChannelState) → Store → Outcome (Option ChannelState) × Store
commit channel_id (ok (some state)) store = (ok (some state), insert channel_id state store)
commit channel_id (ok none) store = (ok none, remove channel_id store)
commit channel_id (err e) store = (err e, store)

unfoldable pub update_channel : Text → Updater → Store → Outcome (Option ChannelState) × Store
update_channel channel_id updater store =
    commit channel_id (updater (lookup channel_id store)) store
