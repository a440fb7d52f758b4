-- ===== src/Session/Service.antt =====
-- A server that runs its requests one at a time, and what holds of its store after any history.
use mpp_movement.Prelude.{ℕ, Option, List, [], ◌∷◌}
use mpp_movement.Text.{Text}
use mpp_movement.Json.{Json}
use mpp_movement.Challenge.Types.{PaymentCredential, Receipt}
use mpp_movement.Session.State.{Store, Outcome}
use mpp_movement.Session.Effects.{Rest, run}
use mpp_movement.Session.Payload.{
  Crates, SessionMethodConfig, MovementSessionMethodDetails, SessionCredentialPayload, open_channel,
  top_up, voucher, close,
}
use mpp_movement.Session.Handlers.{deduct_from_channel, dispatch, verify_session}
use mpp_movement.Session.Rules.{check_rule, lift_rule}
use mpp_movement.Session.Validity.{AllValid}
use mpp_movement.Session.Actions.{
  deduct_from_channel-AllValid, handle_voucher-AllValid, handle_close-AllValid,
  handle_top_up-AllValid,
}
use mpp_movement.Session.Opening.{handle_open-AllValid}

-- A credential that a client presents, with its request's details, or a charge by the server.
pub data Request : Type 0 where
  present : PaymentCredential → Option Json → Request
  charge : (channel_id : Text) (amount : ℕ) → Request

module _ (crates : Crates) (config : SessionMethodConfig) where
  unfoldable pub serve : Rest → Request → Store → Store
  serve rest (present credential details) store =
      (run rest (verify_session crates config credential details) store).1
  serve rest (charge id amount) store = (run rest (deduct_from_channel id amount) store).1

  -- The chain may answer differently at each request.
  unfoldable pub serve_all : List (Rest × Request) → Store → Store
  serve_all [] store = store
  serve_all ((rest, r) ∷ rs) store = serve_all rs (serve rest r store)

  dispatch-AllValid :
      (rest : Rest) (details : MovementSessionMethodDetails) (payload : SessionCredentialPayload)
      (store : Store)
      → AllValid crates store
      → AllValid crates (run rest (dispatch crates config details payload) store).1
  unfolding dispatch
  dispatch-AllValid rest details (open_channel tx id signer amount sig) store all =
      handle_open-AllValid crates rest config details tx id signer amount sig store all
  dispatch-AllValid rest details (top_up tx id extra) store all =
      handle_top_up-AllValid crates rest store all config details tx id
  dispatch-AllValid rest details (voucher id amount sig) store all =
      handle_voucher-AllValid crates rest store all config details id amount sig
  dispatch-AllValid rest details (close id amount sig) store all =
      handle_close-AllValid crates rest store all id amount sig

  pub serve-AllValid :
      (rest : Rest) (r : Request) (store : Store)
      → AllValid crates store
      → AllValid crates (serve rest r store)
  unfolding serve verify_session
  serve-AllValid rest (present credential details) store all =
      check_rule rest Keeps store (λ e. all) _ _ _
        λ _.
          check_rule rest Keeps store (λ e. all) _ _ _
            λ _.
              lift_rule rest Keeps store (λ e. all) _ _
                λ payload _. dispatch-AllValid rest _ payload store all
    where
      Keeps : Outcome Receipt × Store → Type 0
      Keeps p = AllValid crates p.1
  serve-AllValid rest (charge id amount) store all =
      deduct_from_channel-AllValid crates rest store all id amount

  -- After any history of requests that run one at a time, from a store that holds only valid
  -- channels: every channel is stored under its own id, has spent no more than its highest voucher,
  -- whose amount is a u64 and, until the channel is finalized, at most the deposit, and holds for
  -- that voucher a signature that verifies under the channel's 32-byte key.
  pub serve_all-AllValid :
      (history : List (Rest × Request)) (store : Store)
      → AllValid crates store
      → AllValid crates (serve_all history store)
  unfolding serve_all
  serve_all-AllValid [] store all = all
  serve_all-AllValid ((rest, r) ∷ rs) store all =
      serve_all-AllValid rs (serve rest r store) (serve-AllValid rest r store all)
