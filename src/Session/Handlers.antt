-- ===== src/Session/Handlers.antt =====
-- src/protocol/methods/movement/session_method.rs: the four actions of a channel, and `deduct_from_channel`.
use mpp_movement.Prelude.{
  or_else, and_then, ℕ, ◌-◌, Bool, false, not, ◌&&◌, [], Option, none, some, ok, leb, ltb, ◌==◌,
  if◌then◌else◌, ok_or, length,
}
use mpp_movement.Session.Payload.{
  MovementSessionMethodDetails, SessionCredentialPayload, open_channel, top_up, voucher, close,
  SessionMethodConfig, Crates, method_name, intent_session,
}
use mpp_movement.Session.Updating.{deduct, set_deposit, accept, finalize, replace}
use mpp_movement.Text.{Text, text_eq}
use mpp_movement.Text.Number.{parse_u64}
use mpp_movement.Json.{Json}
use mpp_movement.Voucher.{Bytes, bytes_eq, to_array, verify_voucher}
use mpp_movement.Challenge.Types.{PaymentCredential, Receipt, new_receipt}
use mpp_movement.Errors.{
  plain, with_code, channel_not_found, channel_closed, invalid_payload, invalid_signature,
  amount_exceeds_deposit, delta_too_small, credential_mismatch,
}
use mpp_movement.Session.State.{ChannelState, Outcome}
use mpp_movement.Session.Effects.{Prog, lift, check, get, update, ◌>>=◌, ◌>>◌}
use mpp_movement.Session.Chain.{unprefixed, verify_transaction_on_chain, get_on_chain_channel}

unfoldable pub deduct_from_channel : Text → ℕ → Prog ChannelState
deduct_from_channel channel_id amount = do
  result ← update channel_id (deduct amount)
  lift (ok_or result (with_code channel_not_found))

abbrev pub stored_is : Option Bytes → Bytes → Bool
stored_is none signature = false
stored_is (some stored) signature = bytes_eq stored signature

module _ (crates : Crates) where
  open crates use {crypto, hex_decode, hex_encode, now_iso8601}

  unfoldable pub parse_hex_bytes : Text → Outcome Bytes
  parse_hex_bytes hex_str = ok_or (hex_decode (unprefixed hex_str)) (with_code invalid_payload)

  abbrev pub sized : ℕ → Bytes → Outcome Bytes
  sized n bytes = ok_or (to_array n bytes) (with_code invalid_payload)

  abbrev pub parse_amount : Text → Outcome ℕ
  parse_amount s = ok_or (parse_u64 s) (with_code invalid_payload)

  abbrev pub success : Text → Receipt
  success reference = new_receipt now_iso8601 method_name reference

  abbrev pub decode_signer : Option Text → Outcome Bytes
  decode_signer none = ok []
  decode_signer (some s) = parse_hex_bytes s

  unfoldable pub handle_open :
      SessionMethodConfig
      → MovementSessionMethodDetails
      → Text
      → Text
      → Option Text
      → Text
      → Text
      → Prog Receipt
  handle_open config details tx_hash channel_id authorized_signer cumulative_str signature_str = do
    let module_address = details.module_address
    let registry_address = or_else details.registry_address module_address
    _ ← verify_transaction_on_chain config.rest_url tx_hash
    on_chain ←
        get_on_chain_channel hex_decode hex_encode config.rest_url module_address registry_address
          channel_id
    check (not (on_chain.deposit == 0)) (with_code channel_not_found)
    check (not on_chain.finalized) (with_code channel_closed)
    cumulative_amount ← lift (parse_amount cumulative_str)
    check (leb cumulative_amount on_chain.deposit) (with_code amount_exceeds_deposit)
    sig_bytes ← lift (parse_hex_bytes signature_str)
    sig_array ← lift (sized 64 sig_bytes)
    authorized_pubkey ← lift (decode_signer authorized_signer)
    check (length authorized_pubkey == 32) (with_code invalid_payload)
    channel_id_bytes ← lift (parse_hex_bytes channel_id)
    check
        (verify_voucher crypto channel_id_bytes cumulative_amount sig_array authorized_pubkey
          authorized_pubkey)
        (with_code invalid_signature)
    _ ← update channel_id (
        replace (record {
          channel_id = channel_id;
          module_address = module_address;
          registry_address = registry_address;
          payer = on_chain.payer;
          payee = on_chain.payee;
          token = on_chain.token;
          authorized_signer_pubkey = authorized_pubkey;
          deposit = on_chain.deposit;
          settled_on_chain = 0;
          highest_voucher_amount = cumulative_amount;
          highest_voucher_signature = some sig_array;
          spent = 0;
          units = 0;
          finalized = false;
          created_at = now_iso8601;
        }))
    lift (ok (success tx_hash))

  unfoldable pub handle_top_up :
      SessionMethodConfig → MovementSessionMethodDetails → Text → Text → Prog Receipt
  handle_top_up config details tx_hash channel_id = do
    found ← get channel_id
    channel ← lift (ok_or found (with_code channel_not_found))
    let module_address = details.module_address
    let registry_address = or_else details.registry_address module_address
    _ ← verify_transaction_on_chain config.rest_url tx_hash
    on_chain ←
        get_on_chain_channel hex_decode hex_encode config.rest_url module_address registry_address
          channel_id
    check (ltb channel.deposit on_chain.deposit) plain
    _ ← update channel_id (set_deposit on_chain.deposit)
    lift (ok (success tx_hash))

  -- The signature check that follows a decoded signature.
  unfoldable pub check_signature : ChannelState → ℕ → Bytes → Bytes → Prog (Unit {0})
  check_signature channel cumulative_amount channel_id_bytes sig_bytes = do
    sig_array ← lift (sized 64 sig_bytes)
    pubkey ← lift (sized 32 channel.authorized_signer_pubkey)
    check
        (verify_voucher crypto channel_id_bytes cumulative_amount sig_array pubkey
          channel.authorized_signer_pubkey)
        (with_code invalid_signature)

  -- A voucher at or below the highest one.
  unfoldable pub replay_voucher : Text → ChannelState → ℕ → Text → Prog Receipt
  replay_voucher channel_id channel cumulative_amount signature_str = do
    sig_bytes ← lift (parse_hex_bytes signature_str)
    if stored_is channel.highest_voucher_signature sig_bytes
          && (cumulative_amount == channel.highest_voucher_amount)
        then lift (ok (success channel.channel_id))
        else do
          channel_id_bytes ← lift (parse_hex_bytes channel_id)
          check_signature channel cumulative_amount channel_id_bytes sig_bytes
          lift (ok (success channel.channel_id))

  -- A voucher above the highest one.
  unfoldable pub accept_voucher : Text → ChannelState → ℕ → Text → ℕ → Prog Receipt
  accept_voucher channel_id channel cumulative_amount signature_str min_delta = do
    check (leb min_delta (cumulative_amount - channel.highest_voucher_amount))
        (with_code delta_too_small)
    channel_id_bytes ← lift (parse_hex_bytes channel_id)
    sig_bytes ← lift (parse_hex_bytes signature_str)
    check_signature channel cumulative_amount channel_id_bytes sig_bytes
    updated ← update channel_id (accept cumulative_amount sig_bytes)
    state ← lift (ok_or updated (with_code channel_not_found))
    lift (ok (success state.channel_id))

  unfoldable pub verify_and_accept_voucher : Text → ChannelState → ℕ → Text → ℕ → Prog Receipt
  verify_and_accept_voucher channel_id channel cumulative_amount signature_str min_delta = do
    check (leb cumulative_amount channel.deposit) (with_code amount_exceeds_deposit)
    if leb cumulative_amount channel.highest_voucher_amount
        then replay_voucher channel_id channel cumulative_amount signature_str
        else accept_voucher channel_id channel cumulative_amount signature_str min_delta

  abbrev pub resolve_min_delta : SessionMethodConfig → MovementSessionMethodDetails → ℕ
  resolve_min_delta config details =
      or_else (and_then details.min_voucher_delta parse_u64) config.min_voucher_delta

  unfoldable pub handle_voucher :
      SessionMethodConfig → MovementSessionMethodDetails → Text → Text → Text → Prog Receipt
  handle_voucher config details channel_id cumulative_str signature_str = do
    found ← get channel_id
    channel ← lift (ok_or found (with_code channel_not_found))
    check (not channel.finalized) (with_code channel_closed)
    cumulative_amount ← lift (parse_amount cumulative_str)
    verify_and_accept_voucher channel_id channel cumulative_amount signature_str
        (resolve_min_delta config details)

  unfoldable pub handle_close : Text → Text → Text → Prog Receipt
  handle_close channel_id cumulative_str signature_str = do
    found ← get channel_id
    channel ← lift (ok_or found (with_code channel_not_found))
    check (not channel.finalized) (with_code channel_closed)
    cumulative_amount ← lift (parse_amount cumulative_str)
    check (leb channel.highest_voucher_amount cumulative_amount) plain
    channel_id_bytes ← lift (parse_hex_bytes channel_id)
    sig_bytes ← lift (parse_hex_bytes signature_str)
    check_signature channel cumulative_amount channel_id_bytes sig_bytes
    _ ← update channel_id (finalize cumulative_amount sig_bytes)
    lift (ok (success channel_id))

  -- `resolve_details`: the request's details, or those of the configuration.
  abbrev pub resolve_details : SessionMethodConfig → Option Json → MovementSessionMethodDetails
  resolve_details config method_details =
      or_else (and_then method_details crates.details_from) (record {
        module_address = config.module_address;
        registry_address = some config.registry_address;
        token_metadata = some config.token_metadata;
        channel_id = none;
        min_voucher_delta = none;
        network = none;
      })

  unfoldable pub dispatch :
      SessionMethodConfig → MovementSessionMethodDetails → SessionCredentialPayload → Prog Receipt
  dispatch config details (open_channel tx id signer amount sig) =
      handle_open config details tx id signer amount sig
  dispatch config details (top_up tx id extra) = handle_top_up config details tx id
  dispatch config details (voucher id amount sig) = handle_voucher config details id amount sig
  dispatch config details (close id amount sig) = handle_close id amount sig

  -- The request's `method_details` stand for it: nothing else of it is read.
  unfoldable pub verify_session :
      SessionMethodConfig → PaymentCredential → Option Json → Prog Receipt
  verify_session config credential method_details = do
    check (text_eq credential.challenge.method method_name) (with_code credential_mismatch)
    check (text_eq credential.challenge.intent intent_session) (with_code credential_mismatch)
    payload ← lift (ok_or (crates.payload_as credential.payload) (with_code invalid_payload))
    dispatch config (resolve_details config method_details) payload
