-- ===== src/Client.antt =====
-- src/client/movement/session.rs: the client's side of payment channels. serde, hex, the random salt
-- and the submission of a transaction through src/protocol/methods/movement/rest_client.rs are
-- parameters.
pub mod Closing
pub mod Charging
pub mod Charged
pub mod Exchange
pub mod Lockstep
pub mod Exhausted
pub mod Tests
pub mod ChargeTests
use mpp_movement.Prelude.{
  ℕ, zero, suc, ◌&&◌, ◌+◌, ◌-◌, ◌%◌, ◌^◌, ◌<◌, Bool, true, false, List, [], ◌∷◌, ◌++◌, Option, none,
  some, Result, ok, err, ltb, ok_or, if◌then◌else◌, or_else, and_then, length, ◌>>=◌,
}
use mpp_movement.Text.{Text, codes, text_eq, strip_prefix, len}
use mpp_movement.Text.Number.{parse_u64, to_string}
use mpp_movement.Json.{Json, str, obj, end, field}
use mpp_movement.Map.{Map, lookup, insert}
use mpp_movement.Voucher.{Bytes, Crypto, to_array, compute_channel_id, sign_voucher}
use mpp_movement.Challenge.{to_echo}
use mpp_movement.Challenge.Types.{PaymentChallenge, ChallengeEcho, PaymentCredential}
use mpp_movement.Session.Payload.{method_name, intent_session}
use mpp_movement.Session.Request.{SessionRequest, module_address, registry_address, token_metadata}

abbrev pub default_module_address : Text
default_module_address = codes "0x74f1060add0c641a0c10bb5bab2bf5fd05f94d7c25055f2419fa82d7bbf2b1e8"

pub record ChannelEntry : Type 0 where
  pub channel_id : Bytes
  pub salt : Bytes
  pub cumulative_amount : ℕ
  pub module_address : Text
  pub opened : Bool
  pub authorized_pubkey : Bytes
  pub highest_signature : Bytes

-- The variants of `MppError` that `pay` raises, without their messages.
pub data PayError : Type 0 where
  bad_request : PayError
  invalid_amount : PayError
  invalid_config : PayError
  http : PayError

pub record EntryFunctionPayload : Type 0 where
  pub function : Text
  pub type_arguments : List Text
  pub arguments : List Json

-- The crates that the client calls: signatures, hex, serde and Unicode's lower case.
pub record ClientCrates : Type 1 where
  pub crypto : Crypto
  pub hex_decode : Text → Option Bytes
  pub hex_encode : Bytes → Text
  pub decode_request : Text → Option SessionRequest
  pub to_lowercase : Text → Text

-- What one call of `pay` draws and is answered: the random salt, and the hash of the transaction that
-- is submitted.
pub record Draw : Type 0 where
  pub salt : Bytes
  pub submit : EntryFunctionPayload → Option Text

unfoldable pub supports : Text → Text → Bool
supports method intent = text_eq method method_name && text_eq intent intent_session

-- `format!("{:0>width$}")`: zeros on the left up to the width, in characters.
abbrev zeros : ℕ → Text
zeros zero = []
zeros (suc n) = b'0' ∷ zeros n

abbrev pub pad_left : ℕ → Text → Text
pad_left width s = zeros (width - length s) ++ s

unfoldable pub min_deposit : Option ℕ → Option ℕ → Option ℕ → Result PayError ℕ
min_deposit (some s) (some max) default = ok (if ltb max s then max else s)
min_deposit (some s) none default = ok s
min_deposit none (some max) default = ok max
min_deposit none none (some def) = ok def
min_deposit none none none = err invalid_config

module _ (crates : ClientCrates) where
  open crates use {crypto, hex_decode, hex_encode, decode_request, to_lowercase}

  pub record MovementSessionProvider : Type 0 where
    pub signing_key : crypto.SigningKey
    pub sender_address : Text
    pub max_deposit : Option ℕ
    pub default_deposit : Option ℕ
    pub channels : Map ChannelEntry
    pub last_challenge : Option PaymentChallenge

  unfoldable pub resolve_deposit : MovementSessionProvider → Option Text → Result PayError ℕ
  unfolding min_deposit
  resolve_deposit p suggested =
      min_deposit (and_then suggested parse_u64) p.max_deposit p.default_deposit

  unfoldable pub channel_key : Text → Text → Text → Text
  channel_key payee currency module_id =
      to_lowercase payee
      ++ (codes ":" ++ (to_lowercase currency ++ (codes ":" ++ to_lowercase module_id)))

  abbrev pub hex_text : Bytes → Text
  hex_text bytes = codes "0x" ++ hex_encode bytes

  unfoldable pub parse_address_bytes : Text → Result PayError Bytes
  parse_address_bytes addr = do
    bytes ← ok_or (hex_decode (pad_left 64 (or_else (strip_prefix (codes "0x") addr) addr))) http
    ok_or (to_array 32 bytes) http

  -- What `pay` reads off a challenge before it looks for a channel.
  pub record Terms : Type 0 where
    pub request : SessionRequest
    pub amount : ℕ
    pub payee : Text
    pub module_id : Text
    pub key : Text

  unfoldable pub read_terms : PaymentChallenge → Result PayError Terms
  read_terms challenge = do
    request ← ok_or (decode_request challenge.request) bad_request
    amount ← ok_or (parse_u64 request.amount) invalid_amount
    payee ← ok_or request.recipient invalid_config
    let module_id = or_else (module_address request) default_module_address
    ok (record {
      request = request;
      amount = amount;
      payee = payee;
      module_id = module_id;
      key = channel_key payee request.currency module_id;
    })

  abbrev pub credential : ChallengeEcho → Json → PaymentCredential
  credential echo payload = record { challenge = echo; source = none; payload = payload }

  unfoldable pub voucher_payload : Bytes → ℕ → Bytes → Json
  voucher_payload channel_id cumulative sig = obj (
      field (codes "action") (str (codes "voucher")) (
        field (codes "channelId") (str (hex_text channel_id)) (
          field (codes "cumulativeAmount") (str (to_string cumulative))
            (field (codes "signature") (str (hex_text sig)) end))))

  -- An incremental voucher on a channel that is open.
  unfoldable pub send_voucher :
      ChallengeEcho
      → Terms
      → ChannelEntry
      → MovementSessionProvider
      → Result PayError PaymentCredential × MovementSessionProvider
  send_voucher echo t entry p =
      let cumulative = (entry.cumulative_amount + t.amount) % 2 ^ 64 in
      let sig = sign_voucher crypto p.signing_key entry.channel_id cumulative in
      (
        ok (credential echo (voucher_payload entry.channel_id cumulative sig)),
        record p {
          channels =
              insert t.key
                (record entry { cumulative_amount = cumulative; highest_signature = sig })
                p.channels;
        },
      )

  open_payload : Terms → Text → Text → ℕ → Bytes → Bytes → EntryFunctionPayload
  open_payload t registry token deposit salt pubkey = record {
    function = t.module_id ++ codes "::channel::open";
    type_arguments = [];
    arguments =
        str registry
        ∷ str t.payee
        ∷ str token
        ∷ str (to_string deposit)
        ∷ str (hex_text salt)
        ∷ str (hex_text pubkey)
        ∷ [];
  }

  -- A new channel, opened on the chain, and its credential's payload.
  unfoldable pub open_channel :
      Draw → Terms → MovementSessionProvider → Result PayError (ChannelEntry × Json)
  unfolding open_payload
  open_channel draw t p = do
    deposit ← resolve_deposit p t.request.suggested_deposit
    let registry = or_else (registry_address t.request) t.module_id
    let token = or_else (token_metadata t.request) t.request.currency
    let pubkey = crypto.to_bytes (crypto.verifying_key p.signing_key)
    tx_hash ← ok_or (draw.submit (open_payload t registry token deposit draw.salt pubkey)) http
    payer_bytes ← parse_address_bytes p.sender_address
    payee_bytes ← parse_address_bytes t.payee
    token_bytes ← parse_address_bytes token
    let channel_id = compute_channel_id crypto payer_bytes payee_bytes token_bytes draw.salt pubkey
    let sig = sign_voucher crypto p.signing_key channel_id t.amount
    ok (
      record {
        channel_id = channel_id;
        salt = draw.salt;
        cumulative_amount = t.amount;
        module_address = t.module_id;
        opened = true;
        authorized_pubkey = pubkey;
        highest_signature = sig;
      },
      obj (
          field (codes "action") (str (codes "open")) (
            field (codes "txHash") (str tx_hash) (
              field (codes "channelId") (str (hex_text channel_id)) (
                field (codes "authorizedSigner") (str (hex_text pubkey)) (
                  field (codes "cumulativeAmount") (str (to_string t.amount))
                    (field (codes "signature") (str (hex_text sig)) end)))))),
    )

  abbrev pub register :
      ChallengeEcho
      → Terms
      → MovementSessionProvider
      → Result PayError (ChannelEntry × Json)
      → Result PayError PaymentCredential × MovementSessionProvider
  register echo t p (err e) = (err e, p)
  register echo t p (ok (entry, payload)) =
      (ok (credential echo payload), record p { channels = insert t.key entry p.channels })

  abbrev pub open_entry : Option ChannelEntry → Option ChannelEntry
  open_entry none = none
  open_entry (some entry) = if entry.opened then some entry else none

  abbrev pub settle :
      Draw
      → ChallengeEcho
      → MovementSessionProvider
      → Result PayError Terms
      → Result PayError PaymentCredential × MovementSessionProvider
  settle draw echo p (err e) = (err e, p)
  settle draw echo p (ok t) = elim (open_entry (lookup t.key p.channels)) [
    | some entry ↦ send_voucher echo t entry p
    | none ↦ register echo t p (open_channel draw t p)
  ]

  unfoldable pub pay :
      Draw
      → PaymentChallenge
      → MovementSessionProvider
      → Result PayError PaymentCredential × MovementSessionProvider
  pay draw challenge p =
      settle draw (to_echo challenge) (record p { last_challenge = some challenge })
        (read_terms challenge)
