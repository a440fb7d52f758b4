-- ===== src/Session/Interleaving.antt =====
-- src/protocol/methods/movement/session_method.rs: the channel store while requests run at once.
use mpp_movement.Prelude.{
  ℕ, zero, suc, ◌≡◌, refl, ap, ◌∙◌, ok_or-eq-ok, Option, none, some, ok, err, List, [], ◌∷◌, All,
  All-append,
}
use mpp_movement.Text.{Text}
use mpp_movement.Map.{Holds, Holds-insert, Holds-remove, lookup}
use mpp_movement.Voucher.{Bytes}
use mpp_movement.Session.State.{ChannelState, Store, Outcome, update_channel, commit}
use mpp_movement.Session.Effects.{Prog, done, getting, updating, calling, HttpAnswer}
use mpp_movement.Session.Payload.{
  Crates, SessionMethodConfig, MovementSessionMethodDetails, SessionCredentialPayload, open_channel,
  top_up, voucher, close,
}
use mpp_movement.Session.Handlers.{decode_signer, dispatch, verify_session}
use mpp_movement.Session.Service.{Request, present, charge}
use mpp_movement.Session.Schedule.{
  resume, Task, verification, deduction, resume_task, resume_at, World, Event, arrives, runs, begin,
  react, react_all,
}
use mpp_movement.Session.Logic.{GoodOption, GoodOutcome, IsSafe, lift_rule, check_rule}
use mpp_movement.Session.Settling.{IsSettleable}
use mpp_movement.Session.Stepping.{
  deduct_from_channel-IsSafe, handle_voucher-IsSafe, handle_close-IsSafe, handle_top_up-IsSafe,
  handle_open-IsSafe,
}

-- One step of a safe program, from a store of good channels.
module _ (Good : Text → ChannelState → Type 0) where
  lookup-Good :
      (store : Store) (id : Text) → Holds Good store → GoodOption Good id (lookup id store)
  lookup-Good store id all = go (lookup id store) (all id)
    where
      go :
          (o : Option ChannelState)
          → ((s : ChannelState) → o ≡ some s → Good id s)
          → GoodOption Good id o
      go none h = tt
      go (some s) h = h s refl

  commit-Good :
      (store : Store) (id : Text) (r : Outcome (Option ChannelState))
      → Holds Good store
      → GoodOutcome Good id r
      → GoodOutcome Good id (commit id r store).0 × Holds Good (commit id r store).1
  commit-Good store id (ok (some s)) all g = (g, Holds-insert Good store id s all g)
  commit-Good store id (ok none) all g = (tt, Holds-remove Good store id all)
  commit-Good store id (err e) all g = (tt, all)

  pub resume-IsSafe :
      {A : Type 0} (a : HttpAnswer) (m : Prog A) (store : Store)
      → Holds Good store
      → IsSafe Good m
      → IsSafe Good (resume a m store).0 × Holds Good (resume a m store).1
  unfolding resume update_channel
  resume-IsSafe a (done r) store all m = (m, all)
  resume-IsSafe a (getting id k) store all m =
      (m (ok (lookup id store)) (lookup-Good store id all), all)
  resume-IsSafe a (updating id u k) store all m =
      let (good, kept) = commit-Good store id _ all (m.0 _ (lookup-Good store id all)) in
      (m.1 _ good, kept)
  resume-IsSafe a (calling q k) store all m = (m a, all)

  abbrev pub IsSafeTask : Task → Type 0
  IsSafeTask (verification m) = IsSafe Good m
  IsSafeTask (deduction m) = IsSafe Good m

  resume_task-IsSafe :
      (a : HttpAnswer) (t : Task) (store : Store)
      → Holds Good store
      → IsSafeTask t
      → IsSafeTask (resume_task a t store).0 × Holds Good (resume_task a t store).1
  unfolding resume_task
  resume_task-IsSafe a (verification m) store all h = resume-IsSafe a m store all h
  resume_task-IsSafe a (deduction m) store all h = resume-IsSafe a m store all h

  pub resume_at-IsSafe :
      (i : ℕ) (a : HttpAnswer) (ts : List Task) (store : Store)
      → Holds Good store
      → All IsSafeTask ts
      → All IsSafeTask (resume_at i a ts store).0 × Holds Good (resume_at i a ts store).1
  unfolding resume_at
  resume_at-IsSafe i a [] store all h = (h, all)
  resume_at-IsSafe zero a (t ∷ ts) store all h =
      let (safe, kept) = resume_task-IsSafe a t store all h.0 in ((safe, h.1), kept)
  resume_at-IsSafe (suc i) a (t ∷ ts) store all h =
      let (safe, kept) = resume_at-IsSafe i a ts store all h.1 in ((h.0, safe), kept)

module _ (crates : Crates) (config : SessionMethodConfig) (key_of : Text → Bytes) where
  abbrev G : Text → ChannelState → Type 0
  G = IsSettleable crates key_of

  -- An `open` of a channel names the key of the channel's id, if it names a key that decodes.
  abbrev pub NamesKey : Request → Type 0
  NamesKey (charge id amount) = Unit
  NamesKey (present credential details) =
      (tx id : Text) (signer : Option Text) (amount signature : Text) (key : Bytes)
      → crates.payload_as credential.payload ≡ some (open_channel tx id signer amount signature)
      → decode_signer crates signer ≡ ok key
      → key ≡ key_of id

  abbrev pub Arrival : Event → Type 0
  Arrival (arrives r) = NamesKey r
  Arrival (runs i a) = Unit

  dispatch-IsSafe :
      (details : MovementSessionMethodDetails) (payload : SessionCredentialPayload)
      → ((tx id : Text) (signer : Option Text) (amount signature : Text) (key : Bytes)
          → payload ≡ open_channel tx id signer amount signature
          → decode_signer crates signer ≡ ok key
          → key ≡ key_of id)
      → IsSafe G (dispatch crates config details payload)
  unfolding dispatch
  dispatch-IsSafe details (open_channel tx id signer amount sig) h =
      handle_open-IsSafe crates key_of config details tx id signer amount sig
        (λ key e. h tx id signer amount sig key refl e)
  dispatch-IsSafe details (top_up tx id extra) h =
      handle_top_up-IsSafe crates key_of config details tx id
  dispatch-IsSafe details (voucher id amount sig) h =
      handle_voucher-IsSafe crates key_of config details id amount sig
  dispatch-IsSafe details (close id amount sig) h = handle_close-IsSafe crates key_of id amount sig

  begin-IsSafe : (r : Request) → NamesKey r → IsSafeTask G (begin crates config r)
  unfolding begin verify_session
  begin-IsSafe (charge id amount) h = deduct_from_channel-IsSafe crates key_of id amount
  begin-IsSafe (present credential details) h =
      check_rule G (λ _. Unit) _ _ _
        λ _.
          check_rule G (λ _. Unit) _ _ _
            λ _.
              lift_rule G (λ _. Unit) _ _
                λ payload e. dispatch-IsSafe _ payload (λ tx id signer amount sig key same.
                  h tx id signer amount sig key (ok_or-eq-ok _ _ e ∙ ap some same))

  react_all-IsSafe :
      (events : List Event) (w : World)
      → All Arrival events
      → Holds G w.store
      → All (IsSafeTask G) w.tasks
      → Holds G (react_all crates config events w).store
  unfolding react_all react
  react_all-IsSafe [] w h all safe = all
  react_all-IsSafe (arrives r ∷ es) w h all safe =
      react_all-IsSafe es _ h.1 all
        (All-append (IsSafeTask G) w.tasks _ safe (begin-IsSafe r h.0, tt))
  react_all-IsSafe (runs i a ∷ es) w h all safe =
      let (safe', kept) = resume_at-IsSafe G i a w.tasks w.store all safe in
      react_all-IsSafe es _ h.1 kept safe'

  -- Requests may run at once, each store call and each answer of the chain in any order, with any
  -- answers. If every `open` of a channel names the key that `key_of` gives to its id, and every
  -- stored channel was settleable at the start, then at each moment every stored channel has its own
  -- id and that 32-byte key, holds for its highest voucher, whose amount is a u64, a signature that
  -- verifies under the key, and, until it is finalized, has spent no more than that voucher.
  pub react_all-AllSettleable :
      (events : List Event) (store : Store)
      → All Arrival events
      → Holds (IsSettleable crates key_of) store
      → Holds
          (IsSettleable crates key_of)
          (react_all crates config events (record { store = store; tasks = [] })).store
  react_all-AllSettleable events store h all = react_all-IsSafe events _ h all tt
