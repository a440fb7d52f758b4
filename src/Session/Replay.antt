-- ===== src/Session/Replay.antt =====
-- What a second presentation of an `open` credential does.
use mpp_movement.Prelude.{◌≡◌, refl, sym, ap, ◌∙◌, Option, some, ok, err}
use mpp_movement.Text.{Text}
use mpp_movement.Text.Equality.{text_eq_refl}
use mpp_movement.Map.{lookup, lookup-insert}
use mpp_movement.Challenge.Types.{Receipt}
use mpp_movement.Session.State.{ChannelState, Store, Outcome}
use mpp_movement.Session.Effects.{Rest, Prog, run}
use mpp_movement.Session.Payload.{Crates, SessionMethodConfig, MovementSessionMethodDetails}
use mpp_movement.Session.Handlers.{handle_open, success}
use mpp_movement.Session.Opening.{HasVerdict, IsFresh, place, handle_open-HasVerdict}

module _ (crates : Crates) (rest : Rest) (config : SessionMethodConfig)
    (details : MovementSessionMethodDetails) (tx id : Text) (signer : Option Text)
    (cumulative signature : Text) where
  abbrev opening : Prog Receipt
  opening = handle_open crates config details tx id signer cumulative signature

  -- An `open` action that succeeds once succeeds again while the chain answers alike, whatever has
  -- happened to the store, and stores a channel under its id that has spent nothing, counts no
  -- units and is not finalized: what an earlier channel of that id had spent, or that it was
  -- closed, is forgotten.
  pub reopening_forgets :
      (store later : Store) {receipt : Receipt}
      → (run rest opening store).0 ≡ ok receipt
      → ((run rest opening later).0 ≡ ok receipt)
        × ((state : ChannelState) × (lookup id (run rest opening later).1 ≡ some state)
            × (IsFresh crates rest id state))
  reopening_forgets store later {receipt} e =
      go v.verdict v.good (v.runs later)
        (sym (ap (λ (p : Outcome Receipt × Store). p.0) (v.runs store)) ∙ e)
    where
      v : HasVerdict rest id (success crates tx) (IsFresh crates rest id) opening
      v = handle_open-HasVerdict crates rest config details tx id signer cumulative signature

      go :
          (verdict : Outcome ChannelState)
          → ((state : ChannelState) → verdict ≡ ok state → IsFresh crates rest id state)
          → run rest opening later ≡ place id (success crates tx) verdict later
          → (place id (success crates tx) verdict store).0 ≡ ok receipt
          → ((run rest opening later).0 ≡ ok receipt)
            × ((state : ChannelState) × (lookup id (run rest opening later).1 ≡ some state)
                × (IsFresh crates rest id state))
      go (ok state) good same h = (
        ap (λ (p : Outcome Receipt × Store). p.0) same ∙ h,
        (
          state,
          ap (λ (p : Outcome Receipt × Store). lookup id p.1) same
              ∙ (lookup-insert id id state later ∙ rw (text_eq_refl id) refl),
          good state refl,
        ),
      )
      go (err x) good same h = absurd (cc)
