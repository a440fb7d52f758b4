-- ===== src/Client/Exhausted.antt =====
-- A client of src/client/movement/session.rs whose channel has no deposit left.
use mpp_movement.Prelude.{
  ℕ, ◌+◌, ◌%◌, ◌^◌, ◌<◌, ◌≡◌, refl, ap, ◌∙◌, true, false, not, List, [], ◌∷◌, Option, some, err,
  arith, leb, All,
}
use mpp_movement.Text.{Text}
use mpp_movement.Text.Number.{parse_uint-to_string, parse_u64}
use mpp_movement.Map.{lookup, insert}
use mpp_movement.Errors.{with_code, amount_exceeds_deposit}
use mpp_movement.Session.State.{ChannelState, Store, Outcome, get_channel}
use mpp_movement.Session.Effects.{Rest, run, ◌>>=◌, lift, check, get}
use mpp_movement.Session.Payload.{Crates, SessionMethodConfig, MovementSessionMethodDetails}
use mpp_movement.Session.Handlers.{handle_voucher, verify_and_accept_voucher, resolve_details}
use mpp_movement.Session.Request.{SessionRequest}
use mpp_movement.Challenge.Types.{Receipt}
use mpp_movement.Client.{ChannelEntry, send_voucher}
use mpp_movement.Client.Exchange.{
  IsCompatible, Round, serve_paid, presented, exchange, exchange_all, pays_voucher, dispatches,
}
use mpp_movement.Client.Lockstep.{
  Provider, Fair, hex, signed, later_entry, later_provider, lookup-insert_self, total, amount_of,
}

All-mono :
    {A : Type 0} (P Q : A → Type 0) → ((a : A) → P a → Q a) → (xs : List A) → All P xs → All Q xs
All-mono P Q h [] k = tt
All-mono P Q h (x ∷ xs) k = (h x k.0, All-mono P Q h xs k.1)

refused :
    (crates : Crates) (rest : Rest) (config : SessionMethodConfig)
    (details : MovementSessionMethodDetails) (id cumulative signature : Text) (s : ChannelState)
    (amount : ℕ) (store : Store)
    → lookup id store ≡ some s
    → s.finalized ≡ false
    → parse_u64 cumulative ≡ some amount
    → s.deposit < amount
    → run rest (handle_voucher crates config details id cumulative signature) store
      ≡ (err (with_code amount_exceeds_deposit), store)
unfolding handle_voucher verify_and_accept_voucher run ◌>>=◌ lift check get get_channel
refused crates rest config details id cumulative signature s amount store found still parsed above =
    rw (found, run) (rw (open_still) (rw (parsed) (rw (over) refl)))
  where
    open_still : not s.finalized ≡ true
    open_still = ap not still

    over : leb amount s.deposit ≡ false
    over = ground (arith, above)

module _ (server : Crates) (config : SessionMethodConfig)
    (decode_request : Text → Option SessionRequest) (to_lowercase : Text → Text)
    (compatible : IsCompatible server config decode_request to_lowercase) where
  abbrev P : Type 0
  P = Provider server config decode_request to_lowercase compatible

  abbrev Asks : Text → Round server config decode_request to_lowercase → Type 0
  Asks = Fair server config decode_request to_lowercase compatible

  -- The client's open channel `key` is one of the server's, which is not finalized.
  pub record IsListed (key : Text) (p : P) (store : Store) (entry : ChannelEntry) (s : ChannelState)
      : Type 0 where
    pub listed : lookup key p.channels ≡ some entry
    pub opened : entry.opened ≡ true
    pub stored :
        lookup (hex server config decode_request to_lowercase compatible entry.channel_id) store
        ≡ some s
    pub still : s.finalized ≡ false

  abbrev pub IsRefused : Option (Outcome Receipt) → Type 0
  IsRefused answer = answer ≡ some (err (with_code amount_exceeds_deposit))

  abbrev asked : List (Round server config decode_request to_lowercase) → ℕ
  asked = total server config decode_request to_lowercase compatible

  exchange_refused :
      (key : Text) (r : Round server config decode_request to_lowercase) (p : P) (store : Store)
      (entry : ChannelEntry) (s : ChannelState)
      → IsListed key p store entry s
      → (f : Asks key r) → s.deposit < entry.cumulative_amount + f.terms.amount
      → entry.cumulative_amount + f.terms.amount < 2 ^ 64
      → exchange server config decode_request to_lowercase r (p, store) ≡ (
        some (err (with_code amount_exceeds_deposit)),
        (
          later_provider server config decode_request to_lowercase compatible p store entry s r
              f.terms.key f.terms.amount,
          store,
        ),
      )
  unfolding exchange send_voucher
  exchange_refused key r p store entry s h f over small =
      ap (λ x. serve_paid server config decode_request to_lowercase r x store)
        (pays_voucher server config decode_request to_lowercase compatible r.draw r.challenge p
          f.terms entry f.read (ap (λ k. lookup k p.channels) f.keyed ∙ h.listed) h.opened)
      ∙ ap
          (λ x. presented server config decode_request to_lowercase r x (
            later_provider server config decode_request to_lowercase compatible p store entry s r
              f.terms.key f.terms.amount))
          (dispatches server config decode_request to_lowercase compatible r.rest r.challenge
              r.details store entry.channel_id ((entry.cumulative_amount + f.terms.amount) % 2 ^ 64)
              (signed server config decode_request to_lowercase compatible p store entry s r
                f.terms.amount)
              f.by_method f.by_intent
            ∙ refused server r.rest config (resolve_details server config r.details) _ _ _ s
                ((entry.cumulative_amount + f.terms.amount) % 2 ^ 64) store h.stored h.still
                (parse_uint-to_string (2 ^ 64) _ (omega arith)) (omega (arith, over, small)))

  -- Of a row of requests, each of which would alone take an open channel that is not finalized beyond
  -- its deposit, every one is refused for that, and the server's store stays as it is, as long as the
  -- sum is a u64: the client opens no other channel.
  pub exhausted_refuses :
      (key : Text) (rounds : List (Round server config decode_request to_lowercase)) (p : P)
      (store : Store) (entry : ChannelEntry) (s : ChannelState)
      → IsListed key p store entry s
      → All (Asks key) rounds
      → All
          (λ r.
            s.deposit
            < entry.cumulative_amount
              + amount_of server config decode_request to_lowercase compatible r)
          rounds
      → entry.cumulative_amount + asked rounds < 2 ^ 64
      → All IsRefused (exchange_all server config decode_request to_lowercase rounds (p, store)).0
        × ((exchange_all server config decode_request to_lowercase rounds (p, store)).1.1 ≡ store)
  unfolding exchange_all
  exhausted_refuses key [] p store entry s h asks over small = (tt, refl)
  exhausted_refuses key (r ∷ rs) p store entry s h asks over small =
      let f = asks.0 in
      let same : amount_of server config decode_request to_lowercase compatible r ≡ f.terms.amount =
        amounts r f in
      let (refused, kept) =
        exhausted_refuses key rs
          (later_provider server config decode_request to_lowercase compatible p store entry s r
            f.terms.key f.terms.amount)
          store
          (later_entry server config decode_request to_lowercase compatible p store entry s r
            f.terms.amount)
          s
          (record {
            listed =
                ap
                  (λ k. lookup key (
                    insert k
                      (later_entry server config decode_request to_lowercase compatible p store
                        entry s r f.terms.amount)
                      p.channels))
                  f.keyed
                ∙ lookup-insert_self key _ p.channels;
            opened = h.opened;
            stored = h.stored;
            still = h.still;
          })
          asks.1 (All-mono _ _ (λ r' k. omega (arith, k, same, small)) rs over.1)
          (omega (arith, same, small)) in
      rw
        (exchange_refused key r p store entry s h f (omega (arith, over.0, same))
          (omega (arith, small, same)))
        ((refl, refused), kept)
    where
      amounts :
          (r : Round server config decode_request to_lowercase) (f : Asks key r)
          → amount_of server config decode_request to_lowercase compatible r ≡ f.terms.amount
      amounts r f = rw (f.read, amount_of) refl
