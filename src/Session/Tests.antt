-- ===== src/Session/Tests.antt =====
-- The theorems on sessions at a small instance of the crates and of the chain.
use mpp_movement.Prelude.{err, arith, ◌≡◌, refl, true, none, some, ok, []}
use mpp_movement.Text.{codes, trim_end_matches}
use mpp_movement.Text.Number.{parse_uint}
use mpp_movement.Map.{lookup, insert, remove}
use mpp_movement.Voucher.{
  sign_voucher, verify_voucher, serialize_voucher, serialize_uleb128, to_le_bytes,
}
use mpp_movement.Voucher.Tests.{toy_crypto, toy_crypto-IsCorrect}
use mpp_movement.Challenge.Types.{new_receipt, new_name}
use mpp_movement.Session.State.{ChannelState, get_channel, update_channel}
use mpp_movement.Session.Effects.{run, ◌>>=◌, lift, check, get, update, call}
use mpp_movement.Session.Chain.{verify_transaction_on_chain, get_on_chain_channel}
use mpp_movement.Session.Updating.{deduct, set_deposit, accept, finalize, replace}
use mpp_movement.Session.Handlers
use mpp_movement.Session.Handlers.{
  handle_open, handle_top_up, handle_voucher, handle_close, verify_and_accept_voucher,
  replay_voucher, accept_voucher, check_signature, parse_hex_bytes, deduct_from_channel, dispatch,
  verify_session,
}
use mpp_movement.Session.Validity.{AllValid}
use mpp_movement.Session.Service.{serve, serve_all, serve_all-AllValid}
use mpp_movement.Session.Growth.{Grows}
use mpp_movement.Session.Progress.{serve_all-Grows}
use mpp_movement.Session.Honest.{handle_voucher_accepts}
use mpp_movement.Session.Updaters.{accepted}
use mpp_movement.Session.Failure.{failed_session_spares}
use mpp_movement.Errors.{with_code, invalid_payload}
use mpp_movement.Session.Opening.{IsFresh}
use mpp_movement.Session.Replay.{reopening_forgets}
use mpp_movement.Session.Toy.{
  toy_id, toy_key, toy_signature, toy_crates, toy_config, toy_rest, toy_credential, toy_history,
  empty-AllValid, toy_details, spent_of, toy_receipt, toy_later, toy_opening, toy_charges,
  toy_channel, toy_store, stored, young_channel, young_store, young_stored, reads,
  toy_voucher-IsHonest, toy_store-AllValid,
}

serve_all-AllValid_example : AllValid toy_crates (serve_all toy_crates toy_config toy_history [])
serve_all-AllValid_example = serve_all-AllValid toy_crates toy_config toy_history [] empty-AllValid

-- All that a run of the handlers computes with.
handlers : Unit {0}
unfolding serve serve_all run ◌>>=◌ lift check get update call get_channel update_channel
    verify_session dispatch handle_open handle_top_up handle_voucher handle_close
    verify_and_accept_voucher replay_voucher accept_voucher check_signature parse_hex_bytes
    deduct_from_channel deduct set_deposit accept finalize replace verify_transaction_on_chain
    get_on_chain_channel verify_voucher serialize_voucher serialize_uleb128 to_le_bytes parse_uint
    trim_end_matches lookup insert remove new_receipt new_name
handlers = tt

spends :
    spent_of (lookup toy_id (serve_all toy_crates toy_config toy_history [])) ≡ some (120, true)
unfolding handlers
spends = refl

opens :
    (run toy_rest
      (handle_open toy_crates toy_config toy_details
        (codes "0xabc")
        toy_id
        (some toy_key)
        (codes "300")
        toy_signature)
      []).0
    ≡ ok toy_receipt
unfolding handlers
opens = refl

reopening_forgets_example :
    ((run toy_rest toy_opening toy_later).0 ≡ ok toy_receipt)
    × ((state : ChannelState) × (lookup toy_id (run toy_rest toy_opening toy_later).1 ≡ some state)
        × IsFresh toy_crates toy_rest toy_id state)
reopening_forgets_example =
    reopening_forgets toy_crates toy_rest toy_config toy_details (codes "0xabc") toy_id
      (some toy_key) (codes "300") toy_signature [] toy_later opens

handle_voucher_accepts_example :
    run toy_rest
      (handle_voucher toy_crates toy_config toy_details toy_id (codes "300") toy_signature)
      young_store
    ≡ (
      ok (Handlers.success toy_crates toy_id),
      insert toy_id
          (accepted toy_crates young_channel 300
            (sign_voucher toy_crypto 7 toy_voucher-IsHonest.id_bytes 300))
          young_store,
    )
handle_voucher_accepts_example =
    handle_voucher_accepts toy_crates toy_crypto-IsCorrect toy_rest toy_config toy_details toy_id
      (codes "300") toy_signature young_channel 7 300 young_store young_stored refl reads
      (omega arith) (omega arith) (omega arith) toy_voucher-IsHonest

no_action :
    (run toy_rest (verify_session toy_crates toy_config (toy_credential 5) none) toy_store).0
    ≡ err (with_code invalid_payload)
unfolding handlers
no_action = refl

serve_all-Grows_example :
    (t : ChannelState) × (lookup toy_id (serve_all toy_crates toy_config toy_charges toy_store)
      ≡ some t)
    × Grows toy_channel t
serve_all-Grows_example =
    serve_all-Grows toy_crates toy_config toy_charges toy_store toy_store-AllValid
      (refl, (refl, tt)) toy_id toy_channel stored

failed_session_spares_example :
    (run toy_rest (verify_session toy_crates toy_config (toy_credential 5) none) toy_store).1
    ≡ toy_store
failed_session_spares_example =
    failed_session_spares toy_rest toy_store toy_crates toy_config (toy_credential 5) none _
      no_action
