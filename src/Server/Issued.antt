-- ===== src/Server/Issued.antt =====
-- src/server/mpp.rs: what the issued challenges ask for, and their echoes.
use mpp_movement.Prelude.{
  ◌++◌, ◌∷◌, ◌≤◌, ◌<◌, ◌^◌, ◌≡◌, refl, sym, ap, ◌∙◌, subst, true, Option, some, Result, ok, err,
  ok_or, all, length, bind-eq-ok, ok_or-eq-ok,
}
use mpp_movement.Text.{Text, codes, is_ascii_digit}
use mpp_movement.Text.Number.{to_string}
use mpp_movement.Amount.{parse_dollar_amount}
use mpp_movement.Amount.Exact.{base_units, parse_dollar_amount_exact}
use mpp_movement.Challenge.{compute_challenge_id, to_echo}
use mpp_movement.Challenge.Types.{Codec, PaymentChallenge, PaymentCredential}
use mpp_movement.Charge.Request.{ChargeRequest, with_base_units}
use mpp_movement.Server.{
  Formats, Mpp, IssueError, mapped, bad_request, bad_amount, not_written, expected_id,
  verify_hmac_and_expiry,
}
use mpp_movement.Server.Issue.{
  ChargeOptions, expiry_of, plain_request, charge_challenge_with_options, require_movement_config,
  movement_charge_with_options,
}
use mpp_movement.Server.Gate.{IsCurrent, verify_hmac_and_expiry_iff}

pub ok_injective {ℓ κ} :
    {E : Type ℓ} {A : Type κ} {a b : A} → ◌≡◌ {A = Result E A} (ok a) (ok b) → a ≡ b
ok_injective h = cc

mapped-eq-ok {ℓ κ μ} :
    {E : Type ℓ} {F : Type κ} {A : Type μ} (f : E → F) (r : Result E A) {a : A}
    → mapped f r ≡ ok a
    → r ≡ ok a
mapped-eq-ok f (ok b) h = cc
mapped-eq-ok f (err e) h = cc

module _ (codec : Codec) (formats : Formats) where
  -- A challenge of this realm and key, for the request that it encodes.
  record IsIssued (secret realm : Text) (request : ChargeRequest) (c : PaymentChallenge)
      : Type 0 where
    id :
        c.id
        ≡ compute_challenge_id codec secret realm c.method c.intent c.request c.expires c.digest
            c.opaque
    of_realm : c.realm ≡ realm
    intent : c.intent ≡ codes "charge"
    scaled : ChargeRequest
    scales : mapped bad_request (with_base_units request) ≡ ok scaled
    encoded : formats.encode_charge scaled ≡ some c.request

  charge_challenge-IsIssued :
      (secret realm : Text) (request : ChargeRequest) (expires description : Option Text)
      (c : PaymentChallenge)
      → charge_challenge_with_options codec formats secret realm request expires description ≡ ok c
      → IsIssued secret realm request c
  unfolding charge_challenge_with_options
  charge_challenge-IsIssued secret realm request expires description c h =
      let (scaled, s, h1) = bind-eq-ok (mapped bad_request (with_base_units request)) _ h in
      let (encoded, e, h2) = bind-eq-ok (ok_or (formats.encode_charge scaled) not_written) _ h1 in
      let (expiry, x, h3) = bind-eq-ok (expiry_of codec formats expires) _ h2 in
      subst (IsIssued secret realm request) (made h3) (record {
        id = refl;
        of_realm = refl;
        intent = refl;
        scaled = scaled;
        scales = s;
        encoded = ok_or-eq-ok _ _ e;
      })
    where
      made :
          {a b : PaymentChallenge}
          → ◌≡◌ {A = Result IssueError PaymentChallenge} (ok a) (ok b)
          → a ≡ b
      made k = cc

  -- A challenge for a price in dollars.
  record IsPriced (mpp : Mpp) (amount : Text) (options : ChargeOptions) (c : PaymentChallenge)
      : Type 0 where
    currency : Text
    recipient : Text
    priced : Text
    bound : require_movement_config mpp ≡ ok (currency, recipient)
    price : parse_dollar_amount amount mpp.decimals ≡ ok priced
    issued :
        IsIssued mpp.secret_key mpp.realm
          (plain_request priced currency recipient options.description options.external_id)
          c

  movement_charge-IsPriced :
      (mpp : Mpp) (amount : Text) (options : ChargeOptions) (c : PaymentChallenge)
      → movement_charge_with_options codec formats mpp amount options ≡ ok c
      → IsPriced mpp amount options c
  unfolding movement_charge_with_options
  movement_charge-IsPriced mpp amount options c h =
      let (pair, b, h1) = bind-eq-ok (require_movement_config mpp) _ h in
      let (priced, p, h2) =
        bind-eq-ok (mapped bad_amount (parse_dollar_amount amount mpp.decimals)) _ h1 in
      record {
        currency = pair.0;
        recipient = pair.1;
        priced = priced;
        bound = b;
        price = mapped-eq-ok bad_amount _ p;
        issued = charge_challenge-IsIssued _ _ _ _ _ c h2;
      }

  pub issued_intent :
      (mpp : Mpp) (amount : Text) (options : ChargeOptions) (c : PaymentChallenge)
      → movement_charge_with_options codec formats mpp amount options ≡ ok c
      → c.intent ≡ codes "charge"
  issued_intent mpp amount options c h =
      (movement_charge-IsPriced mpp amount options c h).issued.intent

  -- The echo of a charge challenge passes the gate of the server that has issued it, as long as its
  -- time of expiry lies ahead.
  pub issued_charge_admitted :
      (mpp : Mpp) (amount : Text) (options : ChargeOptions) (c : PaymentChallenge)
      (credential : PaymentCredential)
      → movement_charge_with_options codec formats mpp amount options ≡ ok c
      → credential.challenge ≡ to_echo c
      → IsCurrent codec formats c.expires
      → verify_hmac_and_expiry codec formats mpp credential ≡ ok tt
  unfolding to_echo
  issued_charge_admitted mpp amount options c credential h echoed current =
      (verify_hmac_and_expiry_iff codec formats mpp credential).1 (record {
        issued =
            ap (λ e. e.id) echoed
            ∙ ((movement_charge-IsPriced mpp amount options c h).issued.id
                ∙ ap (expected_id codec formats mpp) (sym echoed));
        current = subst (λ e. IsCurrent codec formats e.expires) (sym echoed) current;
      })

  pub config_of :
      (mpp : Mpp) (currency recipient : Text)
      → mpp.currency ≡ some currency
      → mpp.recipient ≡ some recipient
      → require_movement_config mpp ≡ ok (currency, recipient)
  unfolding require_movement_config
  config_of mpp currency recipient c r = rw (c) (rw (r) refl)

  -- Where the encoding of the request decodes to it, the challenge for a sum of dollars whose parts are
  -- rows of digits asks for the value of that sum in base units, in the server's currency and for
  -- its recipient.
  pub movement_charge_exact :
      (mpp : Mpp) (whole frac currency recipient : Text) (options : ChargeOptions)
      (c : PaymentChallenge)
      → mpp.currency ≡ some currency
      → mpp.recipient ≡ some recipient
      → all is_ascii_digit whole ≡ true
      → all is_ascii_digit frac ≡ true
      → length frac ≤ mpp.decimals
      → mpp.decimals ≤ 38
      → 0 < base_units whole frac mpp.decimals
      → base_units whole frac mpp.decimals < 2 ^ 128
      → ((t : Text)
          → formats.encode_charge (
              plain_request
                (to_string (base_units whole frac mpp.decimals))
                currency
                recipient
                options.description
                options.external_id)
            ≡ some t
          → formats.decode_charge t
            ≡ some (
                plain_request
                  (to_string (base_units whole frac mpp.decimals))
                  currency
                  recipient
                  options.description
                  options.external_id))
      → movement_charge_with_options codec formats mpp (whole ++ b'.' ∷ frac) options ≡ ok c
      → formats.decode_charge c.request
        ≡ some (
            plain_request
              (to_string (base_units whole frac mpp.decimals))
              currency
              recipient
              options.description
              options.external_id)
  unfolding with_base_units
  movement_charge_exact mpp whole frac currency recipient options c cur rec hw hf hl hd pos small
        decodes h =
      let v = movement_charge-IsPriced mpp (whole ++ b'.' ∷ frac) options c h in
      let same_price =
        ok_injective
          (sym v.price ∙ parse_dollar_amount_exact whole frac mpp.decimals hw hf hl hd pos small) in
      let same_pair = ok_injective (sym v.bound ∙ config_of mpp currency recipient cur rec) in
      let scaled = ok_injective (sym v.issued.scales) in
      let same : v.issued.scaled
          ≡ plain_request (to_string (base_units whole frac mpp.decimals)) currency recipient
              options.description options.external_id =
        scaled ∙ (λ i.
          plain_request (same_price i) (same_pair i).0 (same_pair i).1 options.description
            options.external_id) in
      decodes c.request
        (subst (λ r. formats.encode_charge r ≡ some c.request) same v.issued.encoded)
