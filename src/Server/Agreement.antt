-- ===== src/Server/Agreement.antt =====
-- The client's checks of src/protocol/core/challenge.rs and the server's gate of src/server/mpp.rs.
use mpp_movement.Prelude.{
  ◌≡◌, refl, ◌↔◌, inl, inr, Bool, true, false, not, ok, err, arith, if◌then◌else◌, Option-cases,
  Result,
}
use mpp_movement.Text.{Text, codes, eq_ignore_ascii_case}
use mpp_movement.Challenge.{is_expired, validate_for_charge, validate_for_session}
use mpp_movement.Challenge.Types.{Codec, PaymentChallenge, ChallengeError, is_charge, is_session}
use mpp_movement.Server.{Formats, check_expiry}

module _ (codec : Codec) (formats : Formats) where
  open codec use {parse_rfc3339, now_utc}

  -- A challenge counts as expired for the client just where the server's gate refuses its time: a time
  -- that does not parse is refused by both, no time at all by neither.
  is_expired-check_expiry :
      (c : PaymentChallenge)
      → (is_expired codec c ≡ false) ↔ (check_expiry codec formats c.expires ≡ ok tt)
  unfolding is_expired
  is_expired-check_expiry c = elim (Option-cases c.expires) [
    | inl e ↦ (λ _. rw (e, check_expiry) refl, λ _. rw e refl)
    | inr (s, e) ↦ elim (Option-cases (parse_rfc3339 s)) [
      | inl p ↦ (λ h. absurd (ground (arith, h, e, p)), λ h. absurd (ground (arith, h, e, p)))
      | inr (t, p) ↦ (λ h. ground (arith, h, e, p), λ h. ground (arith, h, e, p))
    ]
  ]

module _ (codec : Codec) where
  -- A charge is validated just where its method is the given one, in any case, its intent is a charge,
  -- and it has not expired; a session likewise.
  pub validate_iff :
      (c : PaymentChallenge) (method : Text)
      → ((validate_for_charge codec c method ≡ ok tt) ↔ (
          (eq_ignore_ascii_case c.method method ≡ true)
          × (is_charge c.intent ≡ true)
          × (is_expired codec c ≡ false)))
        × ((validate_for_session codec c method ≡ ok tt) ↔ (
            (eq_ignore_ascii_case c.method method ≡ true)
            × (is_session c.intent ≡ true)
            × (is_expired codec c ≡ false)))
  unfolding validate_for_charge validate_for_session is_charge is_session
  validate_iff c method = (
    guards (eq_ignore_ascii_case c.method method) (eq_ignore_ascii_case c.intent (codes "charge"))
        (is_expired codec c) _ _ _,
    guards (eq_ignore_ascii_case c.method method) (eq_ignore_ascii_case c.intent (codes "session"))
        (is_expired codec c) _ _ _,
  )
    where
      guards :
          (a b e : Bool) (x y z : ChallengeError)
          → ◌≡◌ {A = Result ChallengeError (Unit {0})}
              (if not a then err x else if not b then err y else if e then err z else ok tt)
              (ok tt)
            ↔ ((a ≡ true) × (b ≡ true) × (e ≡ false))
      guards a b e x y z = ground arith
