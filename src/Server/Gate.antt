-- ===== src/Server/Gate.antt =====
-- What src/server/mpp.rs lets through to a payment method.
use mpp_movement.Prelude.{
  zero, suc, List, [], ◌∷◌, ℕ, ◌<◌, ◌+◌, ◌≡◌, refl, sym, ap, ◌∙◌, ◌⊎◌, inl, inr, true, Option, none,
  some, ok, err, arith, Option-cases, Bool-cases, ok_or-eq-ok, Result-cases,
}
use mpp_movement.Text.{Text, text_eq}
use mpp_movement.Text.Equality.{text_eq_refl, text_eq_sound}
use mpp_movement.Challenge.{or_blank, compute_challenge_id, hmac_input, to_echo}
use mpp_movement.Challenge.Types.{
  Codec, ChallengeEcho, PaymentChallenge, PaymentCredential, Receipt,
}
use mpp_movement.Challenge.Binding.{bars, bound_fields, hmac_input_of, hmac_input_binds}
use mpp_movement.Charge.Request.{ChargeRequest}
use mpp_movement.Json.{Json}
use mpp_movement.Errors.{VerificationError, plain}
use mpp_movement.Session.State.{Store, Outcome}
use mpp_movement.Session.Effects.{Rest, Prog, run, lift, ◌>>=◌}
use mpp_movement.Session.Rules.{lift_rule, check_rule}
use mpp_movement.Server.{
  Formats, Mpp, option_eq, expected_id, check_expiry, verify_hmac_and_expiry, verify,
  verify_credential_with_expected_request, verify_server_session,
}

option_eq_sound : (a b : Option Text) → option_eq a b ≡ true → a ≡ b
option_eq_sound none none h = refl
option_eq_sound none (some t) h = cc
option_eq_sound (some s) none h = cc
option_eq_sound (some s) (some t) h = ap some (text_eq_sound s t h)

module _ (codec : Codec) (formats : Formats) where
  open codec use {parse_rfc3339, now_utc}

  -- An echo has not expired: it has no time, or one that parses and lies ahead.
  abbrev pub IsCurrent : Option Text → Type 0
  IsCurrent expires =
      (expires ≡ none)
      ⊎ ((s : Text) × ((t : ℕ) × (expires ≡ some s) × (parse_rfc3339 s ≡ some t) × (now_utc < t)))

  pub record IsAdmitted (mpp : Mpp) (credential : PaymentCredential) : Type 0 where
    pub issued : credential.challenge.id ≡ expected_id codec formats mpp credential.challenge
    pub current : IsCurrent credential.challenge.expires

  expiry_sound :
      (expires : Option Text) → check_expiry codec formats expires ≡ ok tt → IsCurrent expires
  expiry_sound none h = inl refl
  expiry_sound (some s) h = inr (elim (Option-cases (parse_rfc3339 s)) [
    | inl e ↦ absurd (ground (arith, h, e))
    | inr (t, e) ↦ (s, (t, refl, e, ground (arith, h, e)))
  ])

  expiry_complete :
      (expires : Option Text) → IsCurrent expires → check_expiry codec formats expires ≡ ok tt
  expiry_complete expires (inl e) = rw e refl
  expiry_complete expires (inr (s, (t, e, p, ahead))) = ground (arith, e, p, ahead)

  -- A credential passes the gate just where its id is the one that the server's key gives to the
  -- fields of its echo, and the echo has no time of expiry or one that parses and lies ahead.
  pub verify_hmac_and_expiry_iff :
      (mpp : Mpp) (credential : PaymentCredential)
      → ((verify_hmac_and_expiry codec formats mpp credential ≡ ok tt) → IsAdmitted mpp credential)
        × (IsAdmitted mpp credential
            → (verify_hmac_and_expiry codec formats mpp credential ≡ ok tt))
  unfolding verify_hmac_and_expiry
  verify_hmac_and_expiry_iff mpp credential = (forth, back)
    where
      echo : ChallengeEcho
      echo = credential.challenge

      forth :
          verify_hmac_and_expiry codec formats mpp credential ≡ ok tt → IsAdmitted mpp credential
      forth h = elim (Bool-cases (text_eq echo.id (expected_id codec formats mpp echo))) [
        | inl e ↦ record {
          issued = text_eq_sound echo.id _ e;
          current = expiry_sound echo.expires (rw e at h);
        }
        | inr e ↦ absurd (ground (arith, h, e))
      ]

      back : IsAdmitted mpp credential → verify_hmac_and_expiry codec formats mpp credential ≡ ok tt
      back i =
          let same : text_eq echo.id (expected_id codec formats mpp echo) ≡ true =
            ap (text_eq echo.id) (sym i.issued) ∙ text_eq_refl echo.id in
          rw same (expiry_complete echo.expires i.current)

  module _ (method : PaymentCredential → ChargeRequest → Prog Receipt) (mpp : Mpp)
      (rest : Rest) where
    -- The request of an accepted credential, which the method has accepted in its turn.
    pub record IsAccepted (credential : PaymentCredential) (receipt : Receipt) (store : Store)
        : Type 0 where
      pub request : ChargeRequest
      pub decoded : formats.decode_charge credential.challenge.request ≡ some request
      pub admitted : IsAdmitted mpp credential
      pub paid : (run rest (method credential request) store).0 ≡ ok receipt

    abbrev IsReceipt : Receipt → Outcome Receipt × Store → Type 0
    IsReceipt receipt p = p.0 ≡ ok receipt

    verify_sound :
        (credential : PaymentCredential) (request : ChargeRequest) (store : Store)
        (receipt : Receipt)
        → IsReceipt receipt (run rest (verify codec formats method mpp credential request) store)
        → (IsAdmitted mpp credential)
          × ((run rest (method credential request) store).0 ≡ ok receipt)
    unfolding verify
    verify_sound credential request store receipt =
        lift_rule rest Goal store (λ e h. cc) _ _
          λ _ passed h. ((verify_hmac_and_expiry_iff mpp credential).0 passed, h)
      where
        Goal : Outcome Receipt × Store → Type 0
        Goal p =
            IsReceipt receipt p
            → (IsAdmitted mpp credential)
              × ((run rest (method credential request) store).0 ≡ ok receipt)

    -- A credential that `verify_credential_with_expected_request` accepts was issued by this server and
    -- has not expired; the request in it has the amount, the currency and the recipient that the
    -- endpoint expects; and the payment method has accepted it for that request.
    pub expected_request_sound :
        (credential : PaymentCredential) (expected : ChargeRequest) (store : Store)
        (receipt : Receipt)
        → (run rest
            (verify_credential_with_expected_request codec formats method mpp credential expected)
            store).0
          ≡ ok receipt
        → (a : IsAccepted credential receipt store) × (a.request.amount ≡ expected.amount)
          × (a.request.currency ≡ expected.currency)
          × (a.request.recipient ≡ expected.recipient)
    unfolding verify_credential_with_expected_request
    expected_request_sound credential expected store receipt =
        lift_rule rest Goal store (λ e h. cc) _ _
          λ request decoded.
            check_rule rest Goal store (λ e h. cc) _ _ _
              λ amounts.
                check_rule rest Goal store (λ e h. cc) _ _ _
                  λ currencies.
                    check_rule rest Goal store (λ e h. cc) _ _ _
                      λ recipients h.
                        let (admitted, paid) = verify_sound credential request store receipt h in
                        (
                          record {
                            request = request;
                            decoded = ok_or-eq-ok _ _ decoded;
                            admitted = admitted;
                            paid = paid;
                          },
                          text_eq_sound _ _ amounts,
                          text_eq_sound _ _ currencies,
                          option_eq_sound _ _ recipients,
                        )
      where
        Goal : Outcome Receipt × Store → Type 0
        Goal p =
            IsReceipt receipt p
            → (a : IsAccepted credential receipt store) × (a.request.amount ≡ expected.amount)
              × (a.request.currency ≡ expected.currency)
              × (a.request.recipient ≡ expected.recipient)

  -- A session credential that the gate refuses changes nothing and is not served.
  pub refused_session :
      (session : Option (PaymentCredential → Option Json → Prog Receipt)) (mpp : Mpp)
      (credential : PaymentCredential) (rest : Rest) (store : Store)
      → ¬ IsAdmitted mpp credential
      → (e : VerificationError) × (run rest
            (verify_server_session codec formats session mpp credential)
            store
          ≡ (err e, store))
  unfolding verify_server_session run ◌>>=◌ lift
  refused_session none mpp credential rest store refused = (plain, refl)
  refused_session (some verifier) mpp credential rest store refused =
      elim (Result-cases (verify_hmac_and_expiry codec formats mpp credential)) [
        | inl (u, e) ↦ absurd (refused ((verify_hmac_and_expiry_iff mpp credential).0 e))
        | inr (x, e) ↦ (x, rw e refl)
      ]

  -- An echo with the server's realm, as a challenge.
  abbrev pub challenge_of : Mpp → ChallengeEcho → PaymentChallenge
  challenge_of mpp echo = record {
    id = echo.id;
    realm = mpp.realm;
    method = echo.method;
    intent = echo.intent;
    request = echo.request;
    expires = echo.expires;
    description = none;
    digest = echo.digest;
    opaque = echo.opaque;
  }

  -- An echo of a challenge, in all but the realm and the description. An absent text counts as an empty
  -- one.
  pub record IsEchoOf (c : PaymentChallenge) (echo : ChallengeEcho) : Type 0 where
    pub id : echo.id ≡ c.id
    pub method : echo.method ≡ c.method
    pub intent : echo.intent ≡ c.intent
    pub request : echo.request ≡ c.request
    pub expires : or_blank echo.expires ≡ or_blank c.expires
    pub digest : or_blank echo.digest ≡ or_blank c.digest
    pub opaque : or_blank echo.opaque ≡ or_blank c.opaque

  same_fields-IsEchoOf :
      (mpp : Mpp) (c : PaymentChallenge) (echo : ChallengeEcho)
      → echo.id ≡ c.id
      → bound_fields c ≡ bound_fields (challenge_of mpp echo)
      → IsEchoOf c echo
  same_fields-IsEchoOf mpp c echo same h = record {
    id = same;
    method = sym (ap (nth 1) h);
    intent = sym (ap (nth 2) h);
    request = sym (ap (nth 3) h);
    expires = sym (ap (nth 4) h);
    digest = sym (ap (nth 5) h);
    opaque = sym (ap (nth 6) h);
  }
    where
      nth : ℕ → List Text → Text
      nth i [] = []
      nth zero (x ∷ xs) = x
      nth (suc i) (x ∷ xs) = nth i xs

  -- A credential that passes the gate under the id of a challenge that this server has issued, with no bar in a field, is
  -- an echo of it, where the HMAC and its encoding do not collide on the two texts: its method,
  -- intent and request are those of the challenge, and so are its time of expiry, digest and opaque
  -- data, an absent one counting as an empty one. Only the realm may be another: with any realm the
  -- credential passes the gate just the same.
  pub admitted_echo_is_issued :
      (mpp : Mpp) (c : PaymentChallenge) (credential : PaymentCredential) (other : Text)
      → c.id ≡ expected_id codec formats mpp (to_echo c)
      → c.realm ≡ mpp.realm
      → bars c.realm
          + (bars c.method
              + (bars c.intent
                  + (bars c.request
                      + (bars (or_blank c.expires)
                          + (bars (or_blank c.digest) + bars (or_blank c.opaque))))))
        ≡ 0
      → (codec.base64url_encode (codec.hmac_sha256 mpp.secret_key (hmac_input_of c))
            ≡ codec.base64url_encode (
                codec.hmac_sha256 mpp.secret_key
                  (hmac_input_of (challenge_of mpp credential.challenge)))
          → hmac_input_of c ≡ hmac_input_of (challenge_of mpp credential.challenge))
      → credential.challenge.id ≡ c.id
      → verify_hmac_and_expiry codec formats mpp credential ≡ ok tt
      → (IsEchoOf c credential.challenge)
        × (verify_hmac_and_expiry codec formats mpp
              (record credential { challenge = record credential.challenge { realm = other } })
            ≡ ok tt)
  unfolding compute_challenge_id to_echo
  admitted_echo_is_issued mpp c credential other made realm bars_free distinct same passed =
      let admitted = (verify_hmac_and_expiry_iff mpp credential).0 passed in
      (
        same_fields-IsEchoOf mpp c credential.challenge same (
            hmac_input_binds c (challenge_of mpp credential.challenge) (omega (arith, bars_free))
              (omega (arith, bars_free)) (omega (arith, bars_free)) (omega (arith, bars_free))
              (omega (arith, bars_free)) (omega (arith, bars_free)) (omega (arith, bars_free))
              (distinct (ap id_under realm ∙ (sym made ∙ (sym same ∙ admitted.issued))))),
        (verify_hmac_and_expiry_iff mpp
              (record credential { challenge = record credential.challenge { realm = other } })).1
            (record { issued = admitted.issued; current = admitted.current }),
      )
    where
      id_under : Text → Text
      id_under r = codec.base64url_encode (
          codec.hmac_sha256 mpp.secret_key
            (hmac_input r c.method c.intent c.request c.expires c.digest c.opaque))
