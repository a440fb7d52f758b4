-- ===== src/Session/Progress.antt =====
-- src/protocol/methods/movement/session_method.rs: the channels of a store over
-- a sequence of requests.
use mpp_movement.Prelude.{
  ℕ, ◌≤◌, ◌<◌, ◌≡◌, sym, ◌∙◌, subst, inl, inr, none, some, arith, leb, leb→le, ltb→lt, List, [],
  ◌∷◌, true, false, Bool-cases, ok_or-eq-ok, ok_or, All, Bool,
}
use mpp_movement.Text.{Text}
use mpp_movement.Json.{Json}
use mpp_movement.Map.{lookup}
use mpp_movement.Errors.{VerificationError}
use mpp_movement.Session.State.{ChannelState, Store, Outcome, Updater, commit}
use mpp_movement.Session.Effects.{Rest, run}
use mpp_movement.Session.Payload.{
  Crates, SessionMethodConfig, MovementSessionMethodDetails, SessionCredentialPayload, open_channel,
  top_up, voucher, close,
}
use mpp_movement.Session.Updating.{deduct, set_deposit, accept, finalize}
use mpp_movement.Session.Handlers.{
  deduct_from_channel, handle_top_up, handle_voucher, handle_close, verify_and_accept_voucher,
  accept_voucher, dispatch, verify_session,
}
use mpp_movement.Session.Rules.{
  lift_rule, check_rule, read_rule, get_rule, last_update_rule, receipt-reads, lift-reads,
}
use mpp_movement.Session.Validity.{AllValid}
use mpp_movement.Session.Growth.{
  Grows, Grows-trans, HasGrown, HasGrown-refl, Moves, commit-HasGrown, deduct-Moves,
  set_deposit-Moves, accept-Moves, finalize-Moves,
}
use mpp_movement.Session.Reading.{
  verify_transaction_on_chain-Reads, get_on_chain_channel-Reads, check_signature_lem,
  replay_voucher-Reads,
}
use mpp_movement.Session.Service.{Request, present, charge, serve, serve_all, serve-AllValid}

module _ (crates : Crates) (rest : Rest) (store : Store) where
  abbrev Keeps : {A : Type 0} → Outcome A × Store → Type 0
  Keeps r = HasGrown store r.1

  abbrev unchanged : VerificationError → HasGrown store store
  unchanged e = HasGrown-refl store

  update-HasGrown :
      (id : Text) (u : Updater)
      → ((s : ChannelState) → lookup id store ≡ some s → Moves s (u (some s)))
      → HasGrown store (commit id (u (lookup id store)) store).1
  update-HasGrown id u h =
      commit-HasGrown store id (u (lookup id store))
        λ s e. subst (λ o. Moves s (u o)) (sym e) (h s e)

  deduct-HasGrown :
      (id : Text) (amount : ℕ)
      → AllValid crates store
      → HasGrown store (run rest (deduct_from_channel id amount) store).1
  unfolding deduct_from_channel
  deduct-HasGrown id amount all =
      last_update_rule rest (HasGrown store) store id (deduct amount) _
        (λ o s. lift-reads rest s (ok_or o _))
        (update-HasGrown id (deduct amount) λ s e. deduct-Moves crates id s amount (all id s e))

  accept-HasGrown :
      (id : Text) (s : ChannelState) (amount : ℕ) (signature : Text) (min_delta : ℕ)
      → HasGrown store (run rest (accept_voucher crates id s amount signature min_delta) store).1
  unfolding accept_voucher
  accept-HasGrown id s amount signature min_delta = check_rule rest Keeps store unchanged _ _ _ λ _.
      lift_rule rest Keeps store unchanged _ _ λ id_bytes _.
        lift_rule rest Keeps store unchanged _ _ λ sig _.
          read_rule rest Keeps store unchanged _ _
            (check_signature_lem rest store crates s amount id_bytes sig).0
            λ _ _.
              last_update_rule rest (HasGrown store) store id (accept amount sig) _
                (λ o t. receipt-reads rest t (ok_or o _) _)
                (update-HasGrown id (accept amount sig) λ t _. accept-Moves t amount sig)

  voucher-HasGrown :
      (config : SessionMethodConfig) (details : MovementSessionMethodDetails)
      (id cumulative signature : Text)
      → HasGrown store
          (run rest (handle_voucher crates config details id cumulative signature) store).1
  unfolding handle_voucher verify_and_accept_voucher
  voucher-HasGrown config details id cumulative signature = get_rule rest Keeps store _ _ (
      lift_rule rest Keeps store unchanged _ _ λ s _.
        check_rule rest Keeps store unchanged _ _ _ λ _.
          lift_rule rest Keeps store unchanged _ _ λ amount _.
            check_rule rest Keeps store unchanged _ _ _ λ _.
              elim (Bool-cases (leb amount s.highest_voucher_amount)) [
                | inl low ↦ rw low (
                    subst (HasGrown store)
                      (sym (replay_voucher-Reads rest store crates id s amount signature))
                      (HasGrown-refl store))
                | inr high ↦ rw high (accept-HasGrown id s amount signature _)
              ])

  close-HasGrown :
      (id cumulative signature : Text)
      → HasGrown store (run rest (handle_close crates id cumulative signature) store).1
  unfolding handle_close
  close-HasGrown id cumulative signature = get_rule rest Keeps store _ _ (
      lift_rule rest Keeps store unchanged _ _ λ s found.
        check_rule rest Keeps store unchanged _ _ _ λ _.
          lift_rule rest Keeps store unchanged _ _ λ amount _.
            check_rule rest Keeps store unchanged _ _ _ λ above.
              lift_rule rest Keeps store unchanged _ _ λ id_bytes _.
                lift_rule rest Keeps store unchanged _ _ λ sig _.
                  read_rule rest Keeps store unchanged _ _
                    (check_signature_lem rest store crates s amount id_bytes sig).0
                    λ _ _.
                      last_update_rule rest (HasGrown store) store id (finalize amount sig) _
                        (λ o t. lift-reads rest t _)
                        (update-HasGrown id (finalize amount sig) λ t e.
                          finalize-Moves t amount sig (
                            subst (λ c. c.highest_voucher_amount ≤ amount)
                              (same_channel (sym (ok_or-eq-ok _ _ found) ∙ e)) (leb→le _ _ above))))
    where
      same_channel : {s t : ChannelState} → some s ≡ some t → s ≡ t
      same_channel k = cc

  top_up-HasGrown :
      (config : SessionMethodConfig) (details : MovementSessionMethodDetails) (tx id : Text)
      → HasGrown store (run rest (handle_top_up crates config details tx id) store).1
  unfolding handle_top_up
  top_up-HasGrown config details tx id = get_rule rest Keeps store _ _ (
      lift_rule rest Keeps store unchanged _ _ λ s found.
        read_rule rest Keeps store unchanged _ _ (verify_transaction_on_chain-Reads rest store _ _)
          λ _ _.
            read_rule rest Keeps store unchanged _ _
              (get_on_chain_channel-Reads rest store _ _ _ _ _ _)
              λ on_chain _. check_rule rest Keeps store unchanged _ _ _ λ more.
                last_update_rule rest (HasGrown store) store id (set_deposit on_chain.deposit) _
                  (λ o t. lift-reads rest t _)
                  (update-HasGrown id (set_deposit on_chain.deposit) λ t e.
                    set_deposit-Moves t on_chain.deposit (
                      subst (λ c. c.deposit < on_chain.deposit)
                        (same_channel (sym (ok_or-eq-ok _ _ found) ∙ e)) (ltb→lt _ _ more))))
    where
      same_channel : {s t : ChannelState} → some s ≡ some t → s ≡ t
      same_channel k = cc

-- A request that opens no channel.
abbrev pub opens_nothing : Crates → Request → Bool
opens_nothing crates (charge id amount) = true
opens_nothing crates (present credential details) = elim (crates.payload_as credential.payload) [
  | none ↦ true
  | some (open_channel tx id signer amount sig) ↦ false
  | some p ↦ true
]

module _ (crates : Crates) (config : SessionMethodConfig) where
  dispatch-HasGrown :
      (rest : Rest) (details : MovementSessionMethodDetails) (payload : SessionCredentialPayload)
      (j : Json) (store : Store)
      → crates.payload_as j ≡ some payload
      → elim (crates.payload_as j) [
        | none ↦ true
        | some (open_channel tx id signer amount sig) ↦ false
        | some p ↦ true
      ]
        ≡ true
      → HasGrown store (run rest (dispatch crates config details payload) store).1
  unfolding dispatch
  dispatch-HasGrown rest details (open_channel tx id signer amount sig) j store e h =
      absurd (ground (arith, e, h))
  dispatch-HasGrown rest details (top_up tx id extra) j store e h =
      top_up-HasGrown crates rest store config details tx id
  dispatch-HasGrown rest details (voucher id amount sig) j store e h =
      voucher-HasGrown crates rest store config details id amount sig
  dispatch-HasGrown rest details (close id amount sig) j store e h =
      close-HasGrown crates rest store id amount sig

  serve-HasGrown :
      (rest : Rest) (r : Request) (store : Store)
      → AllValid crates store
      → opens_nothing crates r ≡ true
      → HasGrown store (serve crates config rest r store)
  unfolding serve verify_session
  serve-HasGrown rest (present credential details) store all h =
      check_rule rest (Keeps crates rest store) store (unchanged crates rest store) _ _ _ λ _.
        check_rule rest (Keeps crates rest store) store (unchanged crates rest store) _ _ _ λ _.
          lift_rule rest (Keeps crates rest store) store (unchanged crates rest store) _ _
            λ payload e.
              dispatch-HasGrown rest _ payload credential.payload store (ok_or-eq-ok _ _ e) h
  serve-HasGrown rest (charge id amount) store all h =
      deduct-HasGrown crates rest store id amount all

  abbrev pub OpensNothing : List (Rest × Request) → Type 0
  OpensNothing = All (λ (r : Rest × Request). opens_nothing crates r.1 ≡ true)

  -- Over any history without an `open` action, from a store of valid channels, no channel is lost: each
  -- keeps its id and its key, its deposit, its highest voucher and what it has spent never fall, and
  -- once it is finalized it stays so.
  pub serve_all-Grows :
      (history : List (Rest × Request)) (store : Store)
      → AllValid crates store
      → OpensNothing history
      → (id : Text) (s : ChannelState) → lookup id store ≡ some s
      → (t : ChannelState) × (lookup id (serve_all crates config history store) ≡ some t)
        × (Grows s t)
  unfolding serve_all
  serve_all-Grows [] store all h id s e = HasGrown-refl store id s e
  serve_all-Grows ((rest, r) ∷ rs) store all h id s e =
      let (t, found, g) = serve-HasGrown rest r store all h.0 id s e in
      let (u, found', g') =
        serve_all-Grows rs (serve crates config rest r store)
          (serve-AllValid crates config rest r store all) h.1 id t found in
      (u, found', Grows-trans s t u g g')
