-- ===== src/Session/Updating.antt =====
-- src/protocol/methods/movement/session_method.rs: the updaters that the handlers give to the store.
use mpp_movement.Prelude.{ℕ, ◌+◌, ◌-◌, ◌%◌, ◌^◌, true, none, some, ok, err, leb, ltb, if◌then◌else◌}
use mpp_movement.Voucher.{Bytes}
use mpp_movement.Errors.{with_code, channel_not_found, insufficient_balance}
use mpp_movement.Session.State.{ChannelState, Updater}

-- The updater of `deduct_from_channel`; `saturating_sub` is the subtraction of numbers.
unfoldable pub deduct : ℕ → Updater
deduct amount none = err (with_code channel_not_found)
deduct amount (some state) =
    if leb amount (state.highest_voucher_amount - state.spent)
    then ok (
        some (record state {
          spent = (state.spent + amount) % 2 ^ 64;
          units = (state.units + 1) % 2 ^ 64;
        }))
    else err (with_code insufficient_balance)

-- The updaters of the handlers.
unfoldable pub set_deposit : ℕ → Updater
set_deposit new_deposit none = err (with_code channel_not_found)
set_deposit new_deposit (some state) = ok (some (record state { deposit = new_deposit }))

unfoldable pub accept : ℕ → Bytes → Updater
accept cumulative_amount signature none = err (with_code channel_not_found)
accept cumulative_amount signature (some state) =
    if ltb state.highest_voucher_amount cumulative_amount
    then ok (
        some (record state {
          highest_voucher_amount = cumulative_amount;
          highest_voucher_signature = some signature;
        }))
    else ok (some state)

unfoldable pub finalize : ℕ → Bytes → Updater
finalize cumulative_amount signature none = ok none
finalize cumulative_amount signature (some state) = ok (
    some (record state {
      highest_voucher_amount = cumulative_amount;
      highest_voucher_signature = some signature;
      finalized = true;
    }))

unfoldable pub replace : ChannelState → Updater
replace state _ = ok (some state)
