-- ===== src/Client/Tests.antt =====
-- A small client beside a small server, and the theorems on their requests at it.
use mpp_movement.Prelude.{◌≡◌, refl, true, List, [], ◌∷◌, ◌++◌, Option, none, some, arith, All}
use mpp_movement.Text.{Text, codes}
use mpp_movement.Text.Number.{parse_uint}
use mpp_movement.Json.{Json, str, obj, end, field}
use mpp_movement.Map.{lookup}
use mpp_movement.Voucher.Tests.{toy_crypto-IsCorrect}
use mpp_movement.Challenge.Types.{PaymentChallenge}
use mpp_movement.Session.State.{ChannelState, Store}
use mpp_movement.Session.Payload.{Crates, SessionCredentialPayload, voucher}
use mpp_movement.Session.Request.{SessionRequest, module_address}
use mpp_movement.Session.Toy.{toy_crates, toy_config, toy_rest, toy_channel, toy_signature, toy_key}
use mpp_movement.Client.{
  ChannelEntry, MovementSessionProvider, voucher_payload, read_terms, channel_key,
  default_module_address,
}
use mpp_movement.Client.Exchange.{client, IsCompatible, Round, exchange_all, IsFair, InSync}
use mpp_movement.Client.Lockstep.{IsPaid, exchange_all-IsPaid}
use mpp_movement.Client.Exhausted.{IsListed, IsRefused, exhausted_refuses}

-- Reads what the client writes as a voucher.
abbrev toy_reader : Json → Option SessionCredentialPayload
toy_reader (obj (field a action (field b (str id) (field c (str n) (field d (str sig) end))))) =
    some (voucher id n sig)
toy_reader _ = none

abbrev toy_server : Crates
toy_server = record toy_crates { payload_as = toy_reader }

abbrev toy_request : SessionRequest
toy_request = record {
  amount = codes "50";
  unit_type = none;
  currency = codes "0xa";
  decimals = none;
  recipient = some (codes "0x2");
  suggested_deposit = none;
  method_details = none;
}

abbrev toy_decode : Text → Option SessionRequest
toy_decode t = some toy_request

abbrev same_case : Text → Text
same_case t = t

toy-IsCompatible : IsCompatible toy_server toy_config toy_decode same_case
unfolding voucher_payload
toy-IsCompatible = record {
  signs = toy_crypto-IsCorrect;
  reads_hex = λ b. refl;
  reads_voucher = λ id n sig. refl;
}

abbrev pub toy_challenge : PaymentChallenge
toy_challenge = record {
  id = codes "c1";
  realm = codes "api";
  method = codes "movement";
  intent = codes "session";
  request = codes "e30";
  expires = none;
  description = none;
  digest = none;
  opaque = none;
}

abbrev toy_round : Round toy_server toy_config toy_decode same_case
toy_round = record {
  rest = toy_rest;
  draw = record { salt = []; submit = λ p. none };
  challenge = toy_challenge;
  details = none;
}

abbrev toy_rounds : List (Round toy_server toy_config toy_decode same_case)
toy_rounds = toy_round ∷ toy_round ∷ []

abbrev toy_key_text : Text
toy_key_text = codes "0x2" ++ (codes ":" ++ (codes "0xa" ++ (codes ":" ++ default_module_address)))

abbrev toy_entry : ChannelEntry
toy_entry = record {
  channel_id = 9 ∷ [];
  salt = [];
  cumulative_amount = 300;
  module_address = default_module_address;
  opened = true;
  authorized_pubkey = toy_key;
  highest_signature = toy_signature;
}

abbrev toy_provider : MovementSessionProvider (client toy_server toy_config toy_decode same_case)
toy_provider = record {
  signing_key = 7;
  sender_address = codes "0x1";
  max_deposit = none;
  default_deposit = some 1000;
  channels = (toy_key_text, toy_entry) ∷ [];
  last_challenge = none;
}

abbrev toy_store : ChannelState → Store
toy_store s = (codes "0x" ++ 9 ∷ [], s) ∷ []

toy-IsFair : IsFair toy_server toy_config toy_decode same_case toy_key_text toy_round
unfolding read_terms channel_key parse_uint module_address
toy-IsFair = record {
  terms = record {
    request = toy_request;
    amount = 50;
    payee = codes "0x2";
    module_id = default_module_address;
    key = toy_key_text;
  };
  read = refl;
  keyed = refl;
  positive = omega arith;
  stepped = omega arith;
  by_method = refl;
  by_intent = refl;
}

toy-InSync :
    InSync toy_server toy_config toy_decode same_case toy_key_text toy_provider
      (toy_store toy_channel)
      toy_entry
      toy_channel
unfolding lookup
toy-InSync = record {
  listed = refl;
  opened = refl;
  stored = refl;
  still = refl;
  keyed = refl;
  level = refl;
}

exchange_all-IsPaid_example :
    All
      (IsPaid toy_server toy_config toy_decode same_case toy-IsCompatible)
      (exchange_all toy_server toy_config toy_decode same_case toy_rounds
        (toy_provider, toy_store toy_channel)).0
    × ((entry : ChannelEntry) × (s : ChannelState) × InSync toy_server toy_config toy_decode
          same_case toy_key_text
          (exchange_all toy_server toy_config toy_decode same_case toy_rounds
            (toy_provider, toy_store toy_channel)).1.0
          (exchange_all toy_server toy_config toy_decode same_case toy_rounds
            (toy_provider, toy_store toy_channel)).1.1
          entry
          s
        × (s.highest_voucher_amount ≡ 400))
unfolding read_terms parse_uint
exchange_all-IsPaid_example =
    exchange_all-IsPaid toy_server toy_config toy_decode same_case toy-IsCompatible toy_key_text
      toy_rounds toy_provider (toy_store toy_channel) toy_entry toy_channel toy-InSync
      (toy-IsFair, (toy-IsFair, tt)) (omega arith) (omega arith)

abbrev poor_channel : ChannelState
poor_channel = record toy_channel { deposit = 320 }

poor-IsListed :
    IsListed toy_server toy_config toy_decode same_case toy-IsCompatible toy_key_text toy_provider
      (toy_store poor_channel)
      toy_entry
      poor_channel
unfolding lookup
poor-IsListed = record { listed = refl; opened = refl; stored = refl; still = refl }

exhausted_refuses_example :
    All
      (IsRefused toy_server toy_config toy_decode same_case toy-IsCompatible)
      (exchange_all toy_server toy_config toy_decode same_case toy_rounds
        (toy_provider, toy_store poor_channel)).0
    × ((exchange_all toy_server toy_config toy_decode same_case toy_rounds
          (toy_provider, toy_store poor_channel)).1.1
        ≡ toy_store poor_channel)
unfolding read_terms parse_uint
exhausted_refuses_example =
    exhausted_refuses toy_server toy_config toy_decode same_case toy-IsCompatible toy_key_text
      toy_rounds toy_provider (toy_store poor_channel) toy_entry poor_channel poor-IsListed
      (toy-IsFair, (toy-IsFair, tt)) (omega arith, (omega arith, tt)) (omega arith)
