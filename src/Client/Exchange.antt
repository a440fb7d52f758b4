-- ===== src/Client/Exchange.antt =====
-- A client of src/client/movement/session.rs and a server of
-- src/protocol/methods/movement/session_method.rs that exchange a voucher for each request.
use mpp_movement.Prelude.{
  ℕ, ◌≤◌, ◌<◌, ◌≡◌, refl, ap, ◌∙◌, true, false, List, [], ◌∷◌, Option, none, some, Result, ok, err,
  ok_or, or_else,
}
use mpp_movement.Text.{Text, codes}
use mpp_movement.Text.Equality.{strip_prefix-append}
use mpp_movement.Text.Number.{to_string}
use mpp_movement.Json.{Json}
use mpp_movement.Map.{lookup}
use mpp_movement.Voucher.{Bytes}
use mpp_movement.Voucher.Signing.{IsCorrect, key_bytes}
use mpp_movement.Challenge.{to_echo}
use mpp_movement.Challenge.Types.{PaymentChallenge, PaymentCredential, Receipt}
use mpp_movement.Errors.{with_code, invalid_payload}
use mpp_movement.Session.State.{ChannelState, Store, Outcome}
use mpp_movement.Session.Effects.{Rest, run, ◌>>=◌, lift, check}
use mpp_movement.Session.Request.{SessionRequest}
use mpp_movement.Session.Payload.{Crates, SessionMethodConfig, voucher, method_name, intent_session}
use mpp_movement.Session.Handlers.{
  verify_session, dispatch, handle_voucher, resolve_details, resolve_min_delta, parse_hex_bytes,
}
use mpp_movement.Client.{
  ChannelEntry, ClientCrates, Draw, PayError, MovementSessionProvider, Terms, read_terms, pay,
  send_voucher, voucher_payload, hex_text, credential, settle,
}

module _ (server : Crates) (config : SessionMethodConfig)
    (decode_request : Text → Option SessionRequest) (to_lowercase : Text → Text) where
  -- A client that uses the same crates for signatures and hex.
  abbrev pub client : ClientCrates
  client = record {
    crypto = server.crypto;
    hex_decode = server.hex_decode;
    hex_encode = server.hex_encode;
    decode_request = decode_request;
    to_lowercase = to_lowercase;
  }

  -- What the crates document: signatures verify, hex is read back, and serde reads the payload that
  -- the client has written as the voucher that it was written from.
  pub record IsCompatible : Type 0 where
    pub signs : IsCorrect server.crypto
    pub reads_hex : (bytes : Bytes) → server.hex_decode (server.hex_encode bytes) ≡ some bytes
    pub reads_voucher :
        (id : Bytes) (amount : ℕ) (sig : Bytes)
        → server.payload_as (voucher_payload client id amount sig)
          ≡ some (voucher (hex_text client id) (to_string amount) (hex_text client sig))

  -- One request: what the client draws, the challenge that it answers, and what the server reads.
  pub record Round : Type 0 where
    pub rest : Rest
    pub draw : Draw
    pub challenge : PaymentChallenge
    pub details : Option Json

  abbrev pub State : Type 0
  State = MovementSessionProvider client × Store

  abbrev pub presented :
      Round
      → Outcome Receipt × Store
      → MovementSessionProvider client
      → Option (Outcome Receipt) × State
  presented r (answer, store) p = (some answer, (p, store))

  abbrev pub serve_paid :
      Round
      → Result PayError PaymentCredential × MovementSessionProvider client
      → Store
      → Option (Outcome Receipt) × State
  serve_paid r (err e, p) store = (none, (p, store))
  serve_paid r (ok c, p) store =
      presented r (run r.rest (verify_session server config c r.details) store) p

  -- The client pays, and the server verifies the credential; none if the client gives up.
  unfoldable pub exchange : Round → State → Option (Outcome Receipt) × State
  exchange r (p, store) = serve_paid r (pay client r.draw r.challenge p) store

  -- The answers to a row of requests, and the state after them.
  unfoldable pub exchange_all : List Round → State → List (Option (Outcome Receipt)) × State
  exchange_all [] state = ([], state)
  exchange_all (r ∷ rs) state = (
    (exchange r state).0 ∷ (exchange_all rs (exchange r state).1).0,
    (exchange_all rs (exchange r state).1).1,
  )

  -- A request for a positive amount on the channel `key`, no less than the server's smallest step.
  pub record IsFair (key : Text) (r : Round) : Type 0 where
    pub terms : Terms client
    pub read : read_terms client r.challenge ≡ ok terms
    pub keyed : terms.key ≡ key
    pub positive : 0 < terms.amount
    pub stepped :
        resolve_min_delta server config (resolve_details server config r.details) ≤ terms.amount
    pub by_method : r.challenge.method ≡ method_name
    pub by_intent : r.challenge.intent ≡ intent_session

  -- The client's open channel `key` is one of the server's, with the same highest voucher.
  pub record InSync (key : Text) (p : MovementSessionProvider client) (store : Store)
      (entry : ChannelEntry) (s : ChannelState) : Type 0 where
    pub listed : lookup key p.channels ≡ some entry
    pub opened : entry.opened ≡ true
    pub stored : lookup (hex_text client entry.channel_id) store ≡ some s
    pub still : s.finalized ≡ false
    pub keyed : s.authorized_signer_pubkey ≡ key_bytes server.crypto p.signing_key
    pub level : s.highest_voucher_amount ≡ entry.cumulative_amount

  module _ (ok_crates : IsCompatible) where
    pub parses_hex : (bytes : Bytes) → parse_hex_bytes server (hex_text client bytes) ≡ ok bytes
    unfolding parse_hex_bytes
    parses_hex bytes =
        ap
          (λ o.
            ok_or (server.hex_decode (or_else o (hex_text client bytes)))
              (with_code invalid_payload))
          (strip_prefix-append (codes "0x") (server.hex_encode bytes))
        ∙ ap (λ o. ok_or o (with_code invalid_payload)) (ok_crates.reads_hex bytes)

    pub pays_voucher :
        (draw : Draw) (challenge : PaymentChallenge) (p : MovementSessionProvider client)
        (t : Terms client) (entry : ChannelEntry)
        → read_terms client challenge ≡ ok t
        → lookup t.key p.channels ≡ some entry
        → entry.opened ≡ true
        → pay client draw challenge p
          ≡ send_voucher client
              (to_echo challenge)
              t
              entry
              (record p { last_challenge = some challenge })
    unfolding pay
    pays_voucher draw challenge p t entry read found opened =
        rw read (rw (found, settle) (rw opened refl))

    pub dispatches :
        (rest : Rest) (challenge : PaymentChallenge) (details : Option Json) (store : Store)
        (id : Bytes) (amount : ℕ) (sig : Bytes)
        → challenge.method ≡ method_name
        → challenge.intent ≡ intent_session
        → run rest
            (verify_session server config
              (credential client (to_echo challenge) (voucher_payload client id amount sig))
              details)
            store
          ≡ run rest
              (handle_voucher server config
                (resolve_details server config details)
                (hex_text client id)
                (to_string amount)
                (hex_text client sig))
              store
    unfolding verify_session dispatch run ◌>>=◌ lift check to_echo
    dispatches rest challenge details store id amount sig method intent =
        rw (method) (rw (intent) (rw (ok_crates.reads_voucher id amount sig) refl))
