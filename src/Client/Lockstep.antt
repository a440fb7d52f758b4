-- ===== src/Client/Lockstep.antt =====
-- A client of src/client/movement/session.rs and a server of
-- src/protocol/methods/movement/session_method.rs over a row of requests.
use mpp_movement.Prelude.{
  ℕ, ◌+◌, ◌%◌, ◌^◌, ◌≤◌, ◌<◌, ◌≡◌, refl, ap, ◌∙◌, List, [], ◌∷◌, Option, some, ok, err, arith, All,
}
use mpp_movement.Text.{Text}
use mpp_movement.Text.Equality.{text_eq_refl}
use mpp_movement.Text.Number.{parse_uint-to_string, to_string}
use mpp_movement.Map.{lookup, insert, lookup-insert}
use mpp_movement.Voucher.{Bytes, sign_voucher}
use mpp_movement.Challenge.Types.{Receipt}
use mpp_movement.Session.State.{ChannelState, Store, Outcome}
use mpp_movement.Session.Payload.{Crates, SessionMethodConfig}
use mpp_movement.Session.Handlers.{resolve_details, success}
use mpp_movement.Session.Honest.{IsHonest, handle_voucher_accepts}
use mpp_movement.Session.Request.{SessionRequest}
use mpp_movement.Session.Updaters.{accepted}
use mpp_movement.Client.{ChannelEntry, MovementSessionProvider, read_terms, send_voucher, hex_text}
use mpp_movement.Client.Exchange.{
  client, IsCompatible, Round, serve_paid, presented, exchange, exchange_all, IsFair, InSync,
  parses_hex, pays_voucher, dispatches,
}

pub lookup-insert_self :
    {V : Type 0} (k : Text) (v : V) (m : List (Text × V)) → lookup k (insert k v m) ≡ some v
lookup-insert_self k v m = lookup-insert k k v m ∙ (rw (text_eq_refl k) refl)

module _ (server : Crates) (config : SessionMethodConfig)
    (decode_request : Text → Option SessionRequest) (to_lowercase : Text → Text)
    (compatible : IsCompatible server config decode_request to_lowercase) where
  abbrev pub Provider : Type 0
  Provider = MovementSessionProvider (client server config decode_request to_lowercase)

  abbrev Sync : Text → Provider → Store → ChannelEntry → ChannelState → Type 0
  Sync = InSync server config decode_request to_lowercase

  abbrev pub Fair : Text → Round server config decode_request to_lowercase → Type 0
  Fair = IsFair server config decode_request to_lowercase

  abbrev pub hex : Bytes → Text
  hex = hex_text (client server config decode_request to_lowercase)

  module _ (p : Provider) (store : Store) (entry : ChannelEntry) (s : ChannelState)
      (r : Round server config decode_request to_lowercase) where
    open r use {rest, draw, challenge, details}

    abbrev pub after : ℕ → ℕ
    after amount = (entry.cumulative_amount + amount) % 2 ^ 64

    abbrev pub signed : ℕ → Bytes
    signed amount = sign_voucher server.crypto p.signing_key entry.channel_id (after amount)

    abbrev pub later_entry : ℕ → ChannelEntry
    later_entry amount = record entry {
      cumulative_amount = after amount;
      highest_signature = signed amount;
    }

    abbrev pub later_provider : Text → ℕ → Provider
    later_provider key amount = record p {
      last_challenge = some challenge;
      channels = insert key (later_entry amount) p.channels;
    }

    abbrev later_channel : ℕ → ChannelState
    later_channel amount = accepted server s (after amount) (signed amount)

    abbrev later_store : ℕ → Store
    later_store amount = insert (hex entry.channel_id) (later_channel amount) store

    exchange_lem :
        (key : Text)
        → Sync key p store entry s
        → (f : Fair key r) → entry.cumulative_amount + f.terms.amount ≤ s.deposit
        → s.deposit < 2 ^ 64
        → exchange server config decode_request to_lowercase r (p, store) ≡ (
          some (ok (success server s.channel_id)),
          (later_provider f.terms.key f.terms.amount, later_store f.terms.amount),
        )
    unfolding exchange send_voucher
    exchange_lem key sync f fits small =
        ap (λ x. serve_paid server config decode_request to_lowercase r x store)
          (pays_voucher server config decode_request to_lowercase compatible draw challenge p
            f.terms entry f.read (ap (λ k. lookup k p.channels) f.keyed ∙ sync.listed) sync.opened)
        ∙ ap
            (λ x.
              presented server config decode_request to_lowercase r x
                (later_provider f.terms.key f.terms.amount))
            (dispatches server config decode_request to_lowercase compatible rest challenge details
                store entry.channel_id (after amount) (signed amount) f.by_method f.by_intent
              ∙ handle_voucher_accepts server compatible.signs rest config
                  (resolve_details server config details) (hex entry.channel_id)
                  (to_string (after amount)) (hex (signed amount)) s p.signing_key (after amount)
                  store sync.stored sync.still
                  (parse_uint-to_string (2 ^ 64) (after amount) (omega arith))
                  (omega (arith, whole, f.positive, sync.level)) (omega (arith, whole, fits))
                  (omega (arith, whole, sync.level, f.stepped)) honest)
      where
        amount : ℕ
        amount = f.terms.amount

        whole : after f.terms.amount ≡ entry.cumulative_amount + f.terms.amount
        whole = omega (arith, fits, small)

        honest :
            IsHonest server compatible.signs s p.signing_key
              (hex entry.channel_id)
              (hex (signed f.terms.amount))
              (after f.terms.amount)
        honest = record {
          id_bytes = entry.channel_id;
          keyed = sync.keyed;
          decoded =
              parses_hex server config decode_request to_lowercase compatible entry.channel_id;
          signed =
              parses_hex server config decode_request to_lowercase compatible
                (signed f.terms.amount);
        }

    later-InSync :
        (key : Text)
        → Sync key p store entry s
        → (f : Fair key r)
        → Sync key
            (later_provider f.terms.key f.terms.amount)
            (later_store f.terms.amount)
            (later_entry f.terms.amount)
            (later_channel f.terms.amount)
    later-InSync key sync f = record {
      listed =
          ap (λ k. lookup key (insert k (later_entry f.terms.amount) p.channels)) f.keyed
          ∙ lookup-insert_self key (later_entry f.terms.amount) p.channels;
      opened = sync.opened;
      stored = lookup-insert_self (hex entry.channel_id) (later_channel f.terms.amount) store;
      still = sync.still;
      keyed = sync.keyed;
      level = refl;
    }

  -- The amount that a request asks for.
  abbrev pub amount_of : Round server config decode_request to_lowercase → ℕ
  amount_of r = elim (read_terms (client server config decode_request to_lowercase) r.challenge) [
    | ok t ↦ t.amount
    | err e ↦ 0
  ]

  abbrev pub total : List (Round server config decode_request to_lowercase) → ℕ
  total [] = 0
  total (r ∷ rs) = amount_of r + total rs

  -- The client has paid and the server has accepted.
  abbrev pub IsPaid : Option (Outcome Receipt) → Type 0
  IsPaid (some (ok receipt)) = Unit
  IsPaid _ = ⊥

  -- As long as the deposit of an open channel covers them, every one of a row of requests is paid by
  -- the client and accepted by the server: where the client's entry and the server's channel have the
  -- same highest voucher and the server's key is the client's, each request asks for a positive amount
  -- that is no less than the server's smallest step, and the total fits the deposit, a u64. The two
  -- then agree again, on the sum.
  pub exchange_all-IsPaid :
      (key : Text) (rounds : List (Round server config decode_request to_lowercase)) (p : Provider)
      (store : Store) (entry : ChannelEntry) (s : ChannelState)
      → Sync key p store entry s
      → All (Fair key) rounds
      → entry.cumulative_amount + total rounds ≤ s.deposit
      → s.deposit < 2 ^ 64
      → All IsPaid (exchange_all server config decode_request to_lowercase rounds (p, store)).0
        × ((entry' : ChannelEntry) × (s' : ChannelState) × Sync key
              (exchange_all server config decode_request to_lowercase rounds (p, store)).1.0
              (exchange_all server config decode_request to_lowercase rounds (p, store)).1.1
              entry'
              s'
            × (s'.highest_voucher_amount ≡ s.highest_voucher_amount + total rounds))
  unfolding exchange_all
  exchange_all-IsPaid key [] p store entry s sync fair fits small =
      (tt, (entry, s, sync, omega arith))
  exchange_all-IsPaid key (r ∷ rs) p store entry s sync fair fits small =
      let f = fair.0 in
      let asked : amount_of r ≡ f.terms.amount = asks r f in
      let (paid, (entry', s', sync', sum)) =
        exchange_all-IsPaid key rs (later_provider p store entry s r f.terms.key f.terms.amount)
          (later_store p store entry s r f.terms.amount)
          (later_entry p store entry s r f.terms.amount)
          (later_channel p store entry s r f.terms.amount)
          (later-InSync p store entry s r key sync f) fair.1 (omega arith) small in
      rw (exchange_lem p store entry s r key sync f (omega arith) small)
        ((tt, paid), (entry', s', sync', omega (arith, sum, sync.level)))
    where
      asks :
          (r : Round server config decode_request to_lowercase) (f : Fair key r)
          → amount_of r ≡ f.terms.amount
      asks r f = rw (f.read, amount_of) refl
