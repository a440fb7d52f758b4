-- ===== src/Session/Schedule.antt =====
-- Requests that run at once: a task is a started handler, and an event lets a request arrive or one
-- task carry out its next step. A store call is one step, since the store does it under its lock.
use mpp_movement.Prelude.{ℕ, zero, suc, List, [], ◌∷◌, ◌++◌}
use mpp_movement.Challenge.Types.{Receipt}
use mpp_movement.Session.State.{ChannelState, Store, get_channel, update_channel}
use mpp_movement.Session.Effects.{Prog, done, getting, updating, calling, HttpAnswer}
use mpp_movement.Session.Payload.{Crates, SessionMethodConfig}
use mpp_movement.Session.Handlers.{verify_session, deduct_from_channel}
use mpp_movement.Session.Service.{Request, present, charge}

-- One step of a program; a finished one stays as it is. The answer serves a call of the REST API.
unfoldable pub resume : {A : Type 0} → HttpAnswer → Prog A → Store → Prog A × Store
unfolding get_channel
resume a (done r) store = (done r, store)
resume a (getting id k) store = (k (get_channel id store), store)
resume a (updating id u k) store = (k (update_channel id u store).0, (update_channel id u store).1)
resume a (calling q k) store = (k a, store)

pub data Task : Type 0 where
  verification : Prog Receipt → Task
  deduction : Prog ChannelState → Task

unfoldable pub resume_task : HttpAnswer → Task → Store → Task × Store
resume_task a (verification m) store = (verification (resume a m store).0, (resume a m store).1)
resume_task a (deduction m) store = (deduction (resume a m store).0, (resume a m store).1)

-- An index past the end resumes nothing.
unfoldable pub resume_at : ℕ → HttpAnswer → List Task → Store → List Task × Store
resume_at i a [] store = ([], store)
resume_at zero a (t ∷ ts) store = ((resume_task a t store).0 ∷ ts, (resume_task a t store).1)
resume_at (suc i) a (t ∷ ts) store = (t ∷ (resume_at i a ts store).0, (resume_at i a ts store).1)

pub record World : Type 0 where
  pub store : Store
  pub tasks : List Task

pub data Event : Type 0 where
  arrives : Request → Event
  runs : (task : ℕ) (answer : HttpAnswer) → Event

module _ (crates : Crates) (config : SessionMethodConfig) where
  unfoldable pub begin : Request → Task
  begin (present credential details) =
      verification (verify_session crates config credential details)
  begin (charge id amount) = deduction (deduct_from_channel id amount)

  unfoldable pub react : Event → World → World
  react (arrives r) w = record { store = w.store; tasks = w.tasks ++ begin r ∷ [] }
  react (runs i a) w = record {
    store = (resume_at i a w.tasks w.store).1;
    tasks = (resume_at i a w.tasks w.store).0;
  }

  unfoldable pub react_all : List Event → World → World
  react_all [] w = w
  react_all (e ∷ es) w = react_all es (react e w)
