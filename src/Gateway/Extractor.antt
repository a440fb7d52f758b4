-- ===== src/Gateway/Extractor.antt =====
-- src/server/axum.rs: the extractor that a paid route asks for, and the responses of such a route.
use mpp_movement.Prelude.{ℕ, Option, none, some, Result, ok, err, or_else, [], ◌∷◌}
use mpp_movement.Prelude
use mpp_movement.Text.{Text, codes}
use mpp_movement.Challenge.Types.{Codec, PaymentChallenge, PaymentCredential, Receipt}
use mpp_movement.Errors.{plain}
use mpp_movement.Headers.{format_www_authenticate}
use mpp_movement.Headers.Tokens.{Tokens, parse_authorization, format_receipt}
use mpp_movement.Charge.Request.{ChargeRequest}
use mpp_movement.Session.State.{Store, Outcome}
use mpp_movement.Session.Effects.{Rest, Prog, run, lift, ◌>>=◌}
use mpp_movement.Server.{Formats, Mpp, verify_credential}
use mpp_movement.Server.Issue.{movement_charge_with_options}
use mpp_movement.Gateway.{
  HttpTypes, Request, Response, auth_header, bare_response, www_authenticate_header,
  payment_receipt_header,
}

-- The trait, without the texts of its errors. `W` is what a verification may change.
pub record ChargeChallenger (W : Type 0) : Type 0 where
  pub challenge : Text → Option Text → Option PaymentChallenge
  pub verify_payment : Text → W → Option Receipt × W

-- The constants of a route.
pub record ChargeConfig : Type 0 where
  pub amount : Text
  pub description : Option Text

pub data MppChargeRejection : Type 0 where
  unpaid : PaymentChallenge → MppChargeRejection
  verification_failed : PaymentChallenge → MppChargeRejection
  internal_error : MppChargeRejection

module _ {W : Type 0} (http : HttpTypes) (challenger : ChargeChallenger W)
    (config : ChargeConfig) where
  abbrev pub refuse :
      (PaymentChallenge → MppChargeRejection) → Option PaymentChallenge → MppChargeRejection
  refuse reason none = internal_error
  refuse reason (some challenge) = reason challenge

  abbrev pub rejection : (PaymentChallenge → MppChargeRejection) → MppChargeRejection
  rejection reason = refuse reason (challenger.challenge config.amount config.description)

  abbrev pub judge : Option Receipt → Result MppChargeRejection Receipt
  judge none = err (rejection verification_failed)
  judge (some receipt) = ok receipt

  abbrev pub extract : Option Text → W → Result MppChargeRejection Receipt × W
  extract none w = (err (rejection unpaid), w)
  extract (some credential) w =
      let (verdict, w') = challenger.verify_payment credential w in (judge verdict, w')

  -- `MppCharge::from_request_parts`: the receipt of the charge.
  unfoldable pub from_request_parts : Request http → W → Result MppChargeRejection Receipt × W
  from_request_parts req w = extract (auth_header http req) w

module _ (http : HttpTypes) where
  open http use {insert, from_str, from_static}

  -- `PaymentRequired::into_response`.
  unfoldable pub payment_required_response : PaymentChallenge → Response http
  payment_required_response challenge = elim (format_www_authenticate challenge) [
    | ok www_auth ↦ record {
      status = 402;
      headers = insert (codes "content-type") (from_static (codes "application/json")) (
          insert www_authenticate_header
            (or_else (from_str www_auth) (from_static (codes "Payment"))) http.empty);
      body = codes "{\"error\":\"Payment Required\"}";
    }
    | err e ↦ bare_response http 500
  ]

  -- `MppChargeRejection::into_response`.
  unfoldable pub rejection_response : MppChargeRejection → Response http
  unfolding payment_required_response
  rejection_response (unpaid challenge) = payment_required_response challenge
  rejection_response (verification_failed challenge) = payment_required_response challenge
  rejection_response internal_error = bare_response http 500

  abbrev attach : Option http.HeaderValue → Response http → Response http
  attach none resp = resp
  attach (some v) resp = record resp { headers = insert payment_receipt_header v resp.headers }

  -- `WithReceipt::into_response`, of a body that is a response already.
  unfoldable pub with_receipt : Tokens → Receipt → Response http → Response http
  with_receipt tokens receipt resp =
      attach (Prelude.and_then (Prelude.to_option (format_receipt tokens receipt)) from_str) resp

module _ (codec : Codec) (formats : Formats) (tokens : Tokens) (rest : Rest)
    (method : PaymentCredential → ChargeRequest → Prog Receipt) (mpp : Mpp) where
  abbrev forget : {A : Type 0} → Outcome A × Store → Option A × Store
  forget (r, store) = (Prelude.to_option r, store)

  abbrev parsed : Text → Prog PaymentCredential
  parsed s = lift (Prelude.ok_or (Prelude.to_option (parse_authorization tokens s)) plain)

  -- `ChargeChallenger` for `Mpp`.
  unfoldable pub mpp_challenge : Text → Option Text → Option PaymentChallenge
  mpp_challenge amount description = Prelude.to_option (
      movement_charge_with_options codec formats mpp amount
        (record { description = description; external_id = none; expires = none }))

  unfoldable pub mpp_verify_payment : Text → Store → Option Receipt × Store
  mpp_verify_payment s store =
      forget (run rest (parsed s >>= verify_credential codec formats method mpp) store)

  abbrev pub mpp_challenger : ChargeChallenger Store
  mpp_challenger = record { challenge = mpp_challenge; verify_payment = mpp_verify_payment }

module _ {W : Type 0} (http : HttpTypes) (tokens : Tokens) (challenger : ChargeChallenger W)
    (config : ChargeConfig) (handler : Receipt → Response http) where
  abbrev pub reply : Result MppChargeRejection Receipt → Response http
  reply (ok receipt) = with_receipt http tokens receipt (handler receipt)
  reply (err r) = rejection_response http r

  -- A route whose handler asks for `MppCharge` and gives a `WithReceipt`: the extractor runs first, and
  -- its rejection is a response.
  abbrev pub paid_route : Request http → W → Option (Response http) × W
  paid_route req w =
      let (r, w') = from_request_parts http challenger config req w in (some (reply r), w')
