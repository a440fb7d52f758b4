-- ===== src/Server/Terms.antt =====
-- src/server/mpp.rs: what the client of src/client/movement/session.rs reads of an issued session
-- challenge, and the server's gate before its echo.
use mpp_movement.Prelude.{
  ◌≡◌, refl, sym, ap, ◌∙◌, subst, ℕ, Option, some, ok, ok_or, bind-eq-ok, ok_or-eq-ok, ◌⊎◌, inl,
  inr,
}
use mpp_movement.Text.{Text}
use mpp_movement.Text.Number.{parse_u64}
use mpp_movement.Challenge.{to_echo, compute_challenge_id}
use mpp_movement.Challenge.Types.{Codec, PaymentChallenge, PaymentCredential}
use mpp_movement.Client.{ClientCrates, Terms, read_terms, channel_key}
use mpp_movement.Session.Request
use mpp_movement.Session.Request.{SessionRequest}
use mpp_movement.Server.{Formats, Mpp, not_written, expected_id, verify_hmac_and_expiry}
use mpp_movement.Server.Gate.{IsCurrent, verify_hmac_and_expiry_iff}
use mpp_movement.Server.Issue.{expiry_of}
use mpp_movement.Server.Issued.{config_of, ok_injective}
use mpp_movement.Server.Sessions.{
  MovementSessionOptions, module_of, session_request, session_challenge, movement_session_challenge,
  movement_session_challenge_with_recipient,
}

module _ (codec : Codec) (formats : Formats) (encode_session : SessionRequest → Option Text)
    (crates : ClientCrates) where
  -- A challenge of this server that carries a request.
  pub record IsFor (mpp : Mpp) (request : SessionRequest) (c : PaymentChallenge) : Type 0 where
    pub encoded : encode_session request ≡ some c.request
    pub id :
        c.id
        ≡ compute_challenge_id codec mpp.secret_key mpp.realm c.method c.intent c.request c.expires
            c.digest c.opaque

  session_challenge-IsFor :
      (mpp : Mpp) (amount currency recipient : Text) (options : MovementSessionOptions)
      (c : PaymentChallenge)
      → session_challenge codec formats encode_session mpp amount currency recipient options ≡ ok c
      → IsFor mpp (session_request amount currency recipient options) c
  session_challenge-IsFor mpp amount currency recipient options c h =
      let request = session_request amount currency recipient options in
      let (t, e, h1) = bind-eq-ok (ok_or (encode_session request) not_written) _ h in
      let (expiry, x, h2) = bind-eq-ok (expiry_of codec formats options.expires) _ h1 in
      subst (IsFor mpp request) (ok_injective h2)
        (record { encoded = ok_or-eq-ok _ not_written e; id = refl })

  -- What the client reads.
  abbrev pub terms_of : SessionRequest → ℕ → Text → Text → Terms crates
  terms_of request n payee module_id = record {
    request = request;
    amount = n;
    payee = payee;
    module_id = module_id;
    key = channel_key crates payee request.currency module_id;
  }

  session_terms :
      (mpp : Mpp) (amount currency recipient : Text) (options : MovementSessionOptions)
      (c : PaymentChallenge) (n : ℕ)
      → parse_u64 amount ≡ some n
      → crates.decode_request c.request ≡ some (session_request amount currency recipient options)
      → read_terms crates c
        ≡ ok (
            terms_of
              (session_request amount currency recipient options)
              n
              recipient
              (module_of options))
  unfolding read_terms Request.module_address
  session_terms mpp amount currency recipient options c n priced decoded =
      rw (decoded) (rw (priced) refl)

  -- A challenge of the server's own recipient, or of one that the call names.
  abbrev pub Issues : Mpp → Text → Text → Text → MovementSessionOptions → PaymentChallenge → Type 0
  Issues mpp own payee amount options c =
      ((movement_session_challenge codec formats encode_session mpp amount options ≡ ok c)
        × (own ≡ payee))
      ⊎ (movement_session_challenge_with_recipient codec formats encode_session mpp amount payee
            options
          ≡ ok c)

  issued-IsFor :
      (mpp : Mpp) (currency own payee amount : Text) (options : MovementSessionOptions)
      (c : PaymentChallenge)
      → mpp.currency ≡ some currency
      → mpp.recipient ≡ some own
      → Issues mpp own payee amount options c
      → IsFor mpp (session_request amount currency payee options) c
  unfolding movement_session_challenge movement_session_challenge_with_recipient
  issued-IsFor mpp currency own payee amount options c cur rec (inl (h, same)) =
      session_challenge-IsFor mpp amount currency payee options c (
        sym (
          rw (config_of codec formats mpp currency own cur rec) (
            ap (λ r. session_challenge codec formats encode_session mpp amount currency r options)
              same))
        ∙ h)
  issued-IsFor mpp currency own payee amount options c cur rec (inr h) =
      session_challenge-IsFor mpp amount currency payee options c
        (sym (rw (config_of codec formats mpp currency own cur rec) refl) ∙ h)

  -- The client and the server agree on a session challenge: where the encoding of its request decodes
  -- to it and the price is a u64, the client reads the price, the payee, the currency and the
  -- module that the server has asked for, those of the call or the defaults; and the echo passes
  -- the server's gate as long as its time of expiry lies ahead.
  pub issued_session_agrees :
      (mpp : Mpp) (currency own payee amount : Text) (options : MovementSessionOptions)
      (c : PaymentChallenge) (n : ℕ) (credential : PaymentCredential)
      → mpp.currency ≡ some currency
      → mpp.recipient ≡ some own
      → Issues mpp own payee amount options c
      → parse_u64 amount ≡ some n
      → credential.challenge ≡ to_echo c
      → IsCurrent codec formats c.expires
      → ((t : Text)
          → encode_session (session_request amount currency payee options) ≡ some t
          → crates.decode_request t ≡ some (session_request amount currency payee options))
      → (read_terms crates c
          ≡ ok (
              terms_of (session_request amount currency payee options) n payee (module_of options)))
        × (verify_hmac_and_expiry codec formats mpp credential ≡ ok tt)
  unfolding to_echo
  issued_session_agrees mpp currency own payee amount options c n credential cur rec issues priced
        echoed current decodes =
      let w = issued-IsFor mpp currency own payee amount options c cur rec issues in
      (
        session_terms mpp amount currency payee options c n priced (decodes c.request w.encoded),
        (verify_hmac_and_expiry_iff codec formats mpp credential).1 (record {
          issued = ap (λ e. e.id) echoed ∙ (w.id ∙ ap (expected_id codec formats mpp) (sym echoed));
          current = subst (λ e. IsCurrent codec formats e.expires) (sym echoed) current;
        }),
      )
