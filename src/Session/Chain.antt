-- ===== src/Session/Chain.antt =====
-- src/protocol/methods/movement/session_method.rs: what the server reads from the chain through the REST
-- API, with the `client` feature.
use mpp_movement.Prelude.{
  ℕ, Bool, false, not, ◌&&◌, ◌++◌, List, [], ◌∷◌, Option, none, some, ok, err, leb, ltb, ◌==◌,
  if◌then◌else◌, ok_or, or_else, and_then,
}
use mpp_movement.Text.{Text, codes, strip_prefix, trim_end_matches, text_eq}
use mpp_movement.Text.Number.{parse_u64}
use mpp_movement.Json
use mpp_movement.Json.{Json, as_str, as_bool, as_array}
use mpp_movement.Voucher.{Bytes}
use mpp_movement.Errors.{with_code, network_failure, pending, transaction_failed, invalid_payload}
use mpp_movement.Session.State.{Outcome}
use mpp_movement.Session.Effects.{
  Prog, HttpAnswer, unreachable, answer, http_get, http_post, lift, call, ◌>>=◌,
}

pub record OnChainChannel : Type 0 where
  pub payer : Text
  pub payee : Text
  pub token : Text
  pub deposit : ℕ
  pub settled : ℕ
  pub close_requested_at : ℕ
  pub finalized : Bool

pub record OnChainTransaction : Type 0 where
  pub hash : Text
  pub success : Bool
  pub vm_status : Text

abbrev pub unprefixed : Text → Text
unprefixed s = or_else (strip_prefix (codes "0x") s) s

abbrev pub is_success : ℕ → Bool
is_success status = leb 200 status && ltb status 300

-- The checks on a transaction that the API knows.
read_transaction : Text → Json → Outcome OnChainTransaction
read_transaction tx_hash body =
    let success = or_else (and_then (Json.get (codes "success") body) as_bool) false in
    let vm_status = or_else (and_then (Json.get (codes "vm_status") body) as_str) [] in
    let hash_str = or_else (and_then (Json.get (codes "hash") body) as_str) tx_hash in
    let tx_type = or_else (and_then (Json.get (codes "type") body) as_str) [] in
    if text_eq tx_type (codes "pending_transaction")
    then err pending
    else if not success
    then err (with_code transaction_failed)
    else ok (record { hash = hash_str; success = success; vm_status = vm_status })

answered_transaction : Text → HttpAnswer → Outcome OnChainTransaction
answered_transaction tx_hash unreachable = err network_failure
answered_transaction tx_hash (answer status body) =
    if status == 404
    then err pending
    else if not (is_success status)
    then err network_failure
    else elim body [ none ↦ err network_failure | some v ↦ read_transaction tx_hash v ]

unfoldable pub verify_transaction_on_chain : Text → Text → Prog OnChainTransaction
unfolding read_transaction answered_transaction
verify_transaction_on_chain rest_url tx_hash = do
  let url =
      trim_end_matches b'/' rest_url ++ (codes "/transactions/by_hash/0x" ++ unprefixed tx_hash)
  a ← call (http_get url)
  lift (answered_transaction tx_hash a)

abbrev text_or_blank : Json → Text
text_or_blank v = or_else (as_str v) []

abbrev number_or_zero : Json → ℕ
number_or_zero v = or_else (and_then (as_str v) parse_u64) 0

-- [payer, payee, token, deposit, settled, close_requested_at, finalized]
read_channel : List Json → Outcome OnChainChannel
read_channel (r0 ∷ r1 ∷ r2 ∷ r3 ∷ r4 ∷ r5 ∷ r6 ∷ _) = ok (record {
  payer = text_or_blank r0;
  payee = text_or_blank r1;
  token = text_or_blank r2;
  deposit = number_or_zero r3;
  settled = number_or_zero r4;
  close_requested_at = number_or_zero r5;
  finalized = or_else (as_bool r6) false;
})
read_channel _ = err network_failure

answered_channel : HttpAnswer → Outcome OnChainChannel
answered_channel unreachable = err network_failure
answered_channel (answer status body) =
    if not (is_success status)
    then err network_failure
    else elim (and_then body as_array) [ none ↦ err network_failure | some vs ↦ read_channel vs ]

module _ (hex_decode : Text → Option Bytes) (hex_encode : Bytes → Text) where
  unfoldable pub get_on_chain_channel : Text → Text → Text → Text → Prog OnChainChannel
  unfolding read_channel answered_channel
  get_on_chain_channel rest_url module_address registry_address channel_id_hex = do
    let url = trim_end_matches b'/' rest_url ++ codes "/view"
    channel_id ← lift (ok_or (hex_decode (unprefixed channel_id_hex)) (with_code invalid_payload))
    a ← call (
        http_post url (module_address ++ codes "::channel::get_channel") registry_address
          (codes "0x" ++ hex_encode channel_id))
    lift (answered_channel a)
