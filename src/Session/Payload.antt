-- ===== src/Session/Payload.antt =====
-- src/protocol/methods/movement/session.rs and session_method.rs: what the session method reads, and
-- the crates that it calls.
use mpp_movement.Prelude.{ℕ, Option}
use mpp_movement.Text.{Text, codes}
use mpp_movement.Json.{Json}
use mpp_movement.Voucher.{Bytes, Crypto}

pub record MovementSessionMethodDetails : Type 0 where
  pub module_address : Text
  pub registry_address : Option Text
  pub token_metadata : Option Text
  pub channel_id : Option Text
  pub min_voucher_delta : Option Text
  pub network : Option Text

pub data SessionCredentialPayload : Type 0 where
  open_channel :
      (tx_hash channel_id : Text) (authorized_signer : Option Text)
      (cumulative_amount signature : Text)
      → SessionCredentialPayload
  top_up : (tx_hash channel_id additional_deposit : Text) → SessionCredentialPayload
  voucher : (channel_id cumulative_amount signature : Text) → SessionCredentialPayload
  close : (channel_id cumulative_amount signature : Text) → SessionCredentialPayload

pub record SessionMethodConfig : Type 0 where
  pub module_address : Text
  pub registry_address : Text
  pub rest_url : Text
  pub token_metadata : Text
  pub min_voucher_delta : ℕ

-- The crates that the handlers call: signatures, hex, serde and the clock.
pub record Crates : Type 1 where
  pub crypto : Crypto
  pub hex_decode : Text → Option Bytes
  pub hex_encode : Bytes → Text
  pub payload_as : Json → Option SessionCredentialPayload
  pub details_from : Json → Option MovementSessionMethodDetails
  pub now_iso8601 : Text

abbrev pub method_name : Text
method_name = codes "movement"

abbrev pub intent_session : Text
intent_session = codes "session"
