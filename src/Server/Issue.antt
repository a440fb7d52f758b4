-- ===== src/Server/Issue.antt =====
-- src/server/mpp.rs and src/protocol/methods/movement/mod.rs: the challenges that a server issues.
use mpp_movement.Prelude.{Option, none, some, Result, ok, ok_or, ◌>>=◌}
use mpp_movement.Text.{Text, codes}
use mpp_movement.Amount.{parse_dollar_amount}
use mpp_movement.Challenge.{compute_challenge_id}
use mpp_movement.Challenge.Types.{Codec, PaymentChallenge}
use mpp_movement.Charge.Request.{ChargeRequest, with_base_units}
use mpp_movement.Server.{
  Formats, Mpp, IssueError, invalid_config, bad_amount, bad_request, not_written, mapped,
}

pub record ChargeOptions : Type 0 where
  pub description : Option Text
  pub external_id : Option Text
  pub expires : Option Text

-- A request with no more than an amount, a currency and a recipient.
abbrev pub plain_request : Text → Text → Text → Option Text → Option Text → ChargeRequest
plain_request amount currency recipient description external_id = record {
  amount = amount;
  currency = currency;
  decimals = none;
  recipient = some recipient;
  description = description;
  external_id = external_id;
  method_details = none;
}

unfoldable pub require_movement_config : Mpp → Result IssueError (Text × Text)
require_movement_config mpp = do
  currency ← ok_or mpp.currency invalid_config
  recipient ← ok_or mpp.recipient invalid_config
  ok (currency, recipient)

module _ (codec : Codec) (formats : Formats) where
  open formats use {encode_charge, default_expires}

  -- The given time, or the default one.
  abbrev pub expiry_of : Option Text → Result IssueError Text
  expiry_of none = ok_or default_expires invalid_config
  expiry_of (some e) = ok e

  unfoldable pub charge_challenge_with_options :
      Text → Text → ChargeRequest → Option Text → Option Text → Result IssueError PaymentChallenge
  charge_challenge_with_options secret_key realm request expires description = do
    scaled ← mapped bad_request (with_base_units request)
    encoded ← ok_or (encode_charge scaled) not_written
    expiry ← expiry_of expires
    ok (record {
      id =
          compute_challenge_id codec secret_key realm (codes "movement") (codes "charge") encoded
            (some expiry) none none;
      realm = realm;
      method = codes "movement";
      intent = codes "charge";
      request = encoded;
      expires = some expiry;
      description = description;
      digest = none;
      opaque = none;
    })

  unfoldable pub charge_challenge :
      Text → Text → Text → Text → Text → Result IssueError PaymentChallenge
  charge_challenge secret_key realm amount currency recipient =
      charge_challenge_with_options secret_key realm
        (plain_request amount currency recipient none none) none none

  unfoldable pub movement_charge_with_options :
      Mpp → Text → ChargeOptions → Result IssueError PaymentChallenge
  movement_charge_with_options mpp amount options = do
    bound ← require_movement_config mpp
    base_units ← mapped bad_amount (parse_dollar_amount amount mpp.decimals)
    charge_challenge_with_options mpp.secret_key mpp.realm
        (plain_request base_units bound.0 bound.1 options.description options.external_id)
        options.expires options.description
