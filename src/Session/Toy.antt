-- ===== src/Session/Toy.antt =====
-- A small instance of the crates, of the chain and of a channel.
use mpp_movement.Prelude.{
  arith, ◌^◌, ℕ, zero, suc, ◌+◌, ◌≡◌, refl, sym, ◌∙◌, Bool, true, false, Option, none, some, List,
  [], ◌∷◌,
}
use mpp_movement.Text.{Text, codes}
use mpp_movement.Text.Number.{parse_uint}
use mpp_movement.Json.{Json, str, bool, num, arr, obj, nil, item, end, field}
use mpp_movement.Map.{Holds-insert, lookup, lookup-nil, insert}
use mpp_movement.Voucher.{
  sign_voucher, verify_voucher, serialize_voucher, serialize_uleb128, to_le_bytes,
}
use mpp_movement.Voucher.Tests.{zeros, toy_crypto, toy_crypto-IsCorrect}
use mpp_movement.Challenge.Types.{PaymentCredential, Receipt, success}
use mpp_movement.Session.State.{ChannelState, Store}
use mpp_movement.Session.Effects.{Prog, Rest, http_get, http_post, answer}
use mpp_movement.Session.Payload.{
  Crates, SessionMethodConfig, MovementSessionMethodDetails, SessionCredentialPayload, open_channel,
  voucher, close,
}
use mpp_movement.Session.Handlers.{handle_open, parse_hex_bytes}
use mpp_movement.Session.Validity.{AllValid, IsSigned, IsValid}
use mpp_movement.Session.Service.{Request, present, charge, serve_all}
use mpp_movement.Session.Honest.{IsHonest}

abbrev pub toy_id : Text
toy_id = 9 ∷ []

abbrev pub toy_key : Text
toy_key = 7 ∷ zeros 31

-- Key 7 signs 300 for channel 9: the bytes of the voucher are 1, 9, 44, 1 and six zeros.
abbrev pub toy_signature : Text
toy_signature = (7 + (1 + (9 + (44 + 1)))) ∷ zeros 63

abbrev pub toy_payload : ℕ → Option SessionCredentialPayload
toy_payload zero =
    some (open_channel (codes "0xabc") toy_id (some toy_key) (codes "300") toy_signature)
toy_payload (suc zero) = some (voucher toy_id (codes "300") toy_signature)
toy_payload (suc (suc zero)) = some (close toy_id (codes "300") toy_signature)
toy_payload _ = none

abbrev pub toy_crates : Crates
toy_crates = record {
  crypto = toy_crypto;
  hex_decode = λ t. some t;
  hex_encode = λ b. b;
  payload_as = λ j. elim j [ num n ↦ toy_payload n | _ ↦ none ];
  details_from = λ j. none;
  now_iso8601 = codes "2026-01-01T00:00:00Z";
}

abbrev pub toy_config : SessionMethodConfig
toy_config = record {
  module_address = codes "0xm";
  registry_address = codes "0xr";
  rest_url = codes "https://rest/";
  token_metadata = codes "0xa";
  min_voucher_delta = 0;
}

abbrev pub toy_channel_info : Json
toy_channel_info = arr (
    item (str (codes "0x1")) (
      item (str (codes "0x2")) (
        item (str (codes "0xa")) (
          item (str (codes "1000"))
            (item (str (codes "0")) (item (str (codes "0")) (item (bool false) nil)))))))

abbrev pub toy_rest : Rest
toy_rest (http_get url) = answer 200 (some (obj (field (codes "success") (bool true) end)))
toy_rest (http_post url function registry channel) = answer 200 (some toy_channel_info)

abbrev pub toy_credential : ℕ → PaymentCredential
toy_credential n = record {
  challenge = record {
    id = codes "c1";
    realm = codes "api";
    method = codes "movement";
    intent = codes "session";
    request = codes "e30";
    expires = none;
    digest = none;
    opaque = none;
  };
  source = none;
  payload = num n;
}

abbrev pub toy_history : List (Rest × Request)
toy_history =
    (toy_rest, present (toy_credential 0) none)
    ∷ (toy_rest, charge toy_id 120)
    ∷ (toy_rest, present (toy_credential 2) none)
    ∷ []

pub empty-AllValid : AllValid toy_crates []
empty-AllValid id s e = absurd (elim_none (sym (lookup-nil id) ∙ e))
  where
    elim_none : none ≡ some s → ⊥
    elim_none h = cc

abbrev pub toy_details : MovementSessionMethodDetails
toy_details = record {
  module_address = codes "0xm";
  registry_address = some (codes "0xr");
  token_metadata = none;
  channel_id = none;
  min_voucher_delta = none;
  network = none;
}

abbrev pub spent_of : Option ChannelState → Option (ℕ × Bool)
spent_of none = none
spent_of (some s) = some (s.spent, s.finalized)

abbrev pub toy_receipt : Receipt
toy_receipt = record {
  status = success;
  method = codes "movement";
  timestamp = codes "2026-01-01T00:00:00Z";
  reference = codes "0xabc";
}

abbrev pub toy_later : Store
toy_later = serve_all toy_crates toy_config toy_history []

abbrev pub toy_opening : Prog Receipt
toy_opening =
    handle_open toy_crates toy_config toy_details (codes "0xabc") toy_id (some toy_key)
      (codes "300") toy_signature

abbrev pub toy_charges : List (Rest × Request)
toy_charges = (toy_rest, charge toy_id 120) ∷ (toy_rest, present (toy_credential 2) none) ∷ []

abbrev pub toy_channel : ChannelState
toy_channel = record {
  channel_id = toy_id;
  module_address = codes "0xm";
  registry_address = codes "0xr";
  payer = codes "0x1";
  payee = codes "0x2";
  token = codes "0xa";
  authorized_signer_pubkey = toy_key;
  deposit = 1000;
  settled_on_chain = 0;
  highest_voucher_amount = 300;
  highest_voucher_signature = some toy_signature;
  spent = 40;
  units = 1;
  finalized = false;
  created_at = codes "2026-01-01T00:00:00Z";
}

abbrev pub toy_store : Store
toy_store = (toy_id, toy_channel) ∷ []

pub stored : lookup toy_id toy_store ≡ some toy_channel
unfolding lookup
stored = refl

abbrev pub young_channel : ChannelState
young_channel = record toy_channel {
  highest_voucher_amount = 100;
  highest_voucher_signature = none;
}

abbrev pub young_store : Store
young_store = (toy_id, young_channel) ∷ []

pub young_stored : lookup toy_id young_store ≡ some young_channel
unfolding lookup
young_stored = refl

pub reads : parse_uint (2 ^ 64) (codes "300") ≡ some 300
unfolding parse_uint
reads = refl

pub toy_voucher-IsHonest :
    IsHonest toy_crates toy_crypto-IsCorrect young_channel 7 toy_id toy_signature 300
unfolding parse_hex_bytes sign_voucher serialize_voucher serialize_uleb128 to_le_bytes
toy_voucher-IsHonest = record { id_bytes = toy_id; keyed = refl; decoded = refl; signed = refl }

pub toy_channel-IsSigned : IsSigned toy_crates toy_channel
unfolding parse_hex_bytes verify_voucher serialize_voucher serialize_uleb128 to_le_bytes
toy_channel-IsSigned = record {
  signature = toy_signature;
  channel_id_bytes = toy_id;
  stored = refl;
  decoded = refl;
  verified = refl;
}

pub toy_store-AllValid : AllValid toy_crates toy_store
unfolding insert
toy_store-AllValid =
    Holds-insert (IsValid toy_crates) [] toy_id toy_channel empty-AllValid (record {
      named = refl;
      keyed = refl;
      covered = omega arith;
      bounded = omega arith;
      funded = λ _. omega arith;
      signed = toy_channel-IsSigned;
    })
