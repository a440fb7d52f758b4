-- ===== src/Session/Actions.antt =====
-- src/protocol/methods/movement/session_method.rs: the actions one by one and
-- the invariant of the store.
use mpp_movement.Prelude.{
  ℕ, ◌^◌, ◌≤◌, ◌<◌, ◌≡◌, sym, ap, ◌∙◌, subst, inl, inr, none, some, ok, arith, leb, leb→le, ltb→lt,
  Bool-cases, Option-cases, ok_or-eq-ok, ok_or,
}
use mpp_movement.Text.{Text}
use mpp_movement.Text.Number.{parse_uint-lt}
use mpp_movement.Map.{lookup}
use mpp_movement.Errors.{VerificationError}
use mpp_movement.Session.State.{ChannelState, Store, Outcome, Updater, commit}
use mpp_movement.Session.Effects.{Rest, run}
use mpp_movement.Session.Payload.{Crates, SessionMethodConfig, MovementSessionMethodDetails}
use mpp_movement.Session.Updating.{deduct, set_deposit, accept, finalize}
use mpp_movement.Session.Handlers.{
  deduct_from_channel, handle_top_up, handle_voucher, handle_close, verify_and_accept_voucher,
  accept_voucher,
}
use mpp_movement.Session.Rules.{
  lift_rule, check_rule, read_rule, get_rule, last_update_rule, receipt-reads, lift-reads,
}
use mpp_movement.Session.Validity.{IsValid, AllValid, commit-AllValid}
use mpp_movement.Session.Updaters.{
  deduct-IsValid, set_deposit-IsValid, accept-IsValid, finalize-IsValid,
}
use mpp_movement.Session.Reading.{
  verify_transaction_on_chain-Reads, get_on_chain_channel-Reads, check_signature_lem,
  replay_voucher-Reads,
}

module _ (crates : Crates) where
  open crates use {crypto}

  module _ (rest : Rest) (store : Store) (all : AllValid crates store) where
    abbrev Keeps : {A : Type 0} → Outcome A × Store → Type 0
    Keeps r = AllValid crates r.1

    -- A failure leaves the store as it was.
    abbrev unchanged : VerificationError → AllValid crates store
    unchanged e = all

    -- An update is judged by what it makes of the stored channel, if there is one.
    update-AllValid :
        (id : Text) (u : Updater)
        → ((t : ChannelState) → u none ≡ ok (some t) → IsValid crates id t)
        → ((s t : ChannelState)
            → lookup id store ≡ some s
            → u (some s) ≡ ok (some t)
            → IsValid crates id t)
        → AllValid crates (commit id (u (lookup id store)) store).1
    update-AllValid id u absent present =
        commit-AllValid crates store id (u (lookup id store)) all λ t made.
          elim (Option-cases (lookup id store)) [
            | inl e ↦ absent t (ap u (sym e) ∙ made)
            | inr (s, e) ↦ present s t e (ap u (sym e) ∙ made)
          ]

    pub deduct_from_channel-AllValid :
        (id : Text) (amount : ℕ)
        → AllValid crates (run rest (deduct_from_channel id amount) store).1
    unfolding deduct_from_channel deduct
    deduct_from_channel-AllValid id amount =
        last_update_rule rest (AllValid crates) store id (deduct amount) _
          (λ o s. lift-reads rest s (ok_or o _))
          (update-AllValid id (deduct amount) (λ t e. ground (arith, e))
            λ s t found e. deduct-IsValid crates id s t amount (all id s found) e)

    accept_voucher-AllValid :
        (id : Text) (s : ChannelState) (amount : ℕ) (signature : Text) (min_delta : ℕ)
        → lookup id store ≡ some s
        → amount < 2 ^ 64
        → amount ≤ s.deposit
        → AllValid crates (run rest (accept_voucher crates id s amount signature min_delta) store).1
    unfolding accept_voucher
    accept_voucher-AllValid id s amount signature min_delta found small within =
        check_rule rest Keeps store unchanged _ _ _ λ _.
          lift_rule rest Keeps store unchanged _ _ λ id_bytes e.
            lift_rule rest Keeps store unchanged _ _ λ sig e'.
              read_rule rest Keeps store unchanged _ _
                (check_signature_lem rest store crates s amount id_bytes sig).0
                λ _ signed.
                  last_update_rule rest (AllValid crates) store id (accept amount sig) _
                    (λ o t. receipt-reads rest t (ok_or o _) _)
                    (commit-AllValid crates store id _ all λ t made.
                      accept-IsValid crates id s t amount sig (all id s found)
                        (record {
                          id_bytes = id_bytes;
                          parsed = e;
                          small = small;
                          passed =
                              (check_signature_lem rest store crates s amount id_bytes sig).1
                                signed;
                        })
                        within (ap (accept amount sig) (sym found) ∙ made))

    pub handle_voucher-AllValid :
        (config : SessionMethodConfig) (details : MovementSessionMethodDetails)
        (id cumulative signature : Text)
        → AllValid crates
            (run rest (handle_voucher crates config details id cumulative signature) store).1
    unfolding handle_voucher verify_and_accept_voucher
    handle_voucher-AllValid config details id cumulative signature = get_rule rest Keeps store _ _ (
        lift_rule rest Keeps store unchanged _ _ λ s e.
          check_rule rest Keeps store unchanged _ _ _ λ _.
            lift_rule rest Keeps store unchanged _ _ λ amount parsed.
              check_rule rest Keeps store unchanged _ _ _ λ within.
                elim (Bool-cases (leb amount s.highest_voucher_amount)) [
                  | inl low ↦ rw low (
                      subst (AllValid crates)
                        (sym (replay_voucher-Reads rest store crates id s amount signature)) all)
                  | inr high ↦ rw high (
                      accept_voucher-AllValid id s amount signature _ (ok_or-eq-ok _ _ e)
                        (parse_uint-lt _ cumulative amount (omega arith) (ok_or-eq-ok _ _ parsed))
                        (leb→le _ _ within))
                ])

    pub handle_close-AllValid :
        (id cumulative signature : Text)
        → AllValid crates (run rest (handle_close crates id cumulative signature) store).1
    unfolding handle_close
    handle_close-AllValid id cumulative signature = get_rule rest Keeps store _ _ (
        lift_rule rest Keeps store unchanged _ _ λ s found.
          check_rule rest Keeps store unchanged _ _ _ λ _.
            lift_rule rest Keeps store unchanged _ _ λ amount parsed.
              check_rule rest Keeps store unchanged _ _ _ λ above.
                lift_rule rest Keeps store unchanged _ _ λ id_bytes e.
                  lift_rule rest Keeps store unchanged _ _ λ sig e'.
                    read_rule rest Keeps store unchanged _ _
                      (check_signature_lem rest store crates s amount id_bytes sig).0
                      λ _ signed.
                        last_update_rule rest (AllValid crates) store id (finalize amount sig) _
                          (λ o t. lift-reads rest t _)
                          (commit-AllValid crates store id _ all λ t made.
                            finalize-IsValid crates id s t amount sig
                              (all id s (ok_or-eq-ok _ _ found))
                              (record {
                                id_bytes = id_bytes;
                                parsed = e;
                                small =
                                    parse_uint-lt _ cumulative amount (omega arith)
                                      (ok_or-eq-ok _ _ parsed);
                                passed =
                                    (check_signature_lem rest store crates s amount id_bytes sig).1
                                      signed;
                              })
                              (leb→le _ _ above)
                              (ap (finalize amount sig) (sym (ok_or-eq-ok _ _ found)) ∙ made)))

    pub handle_top_up-AllValid :
        (config : SessionMethodConfig) (details : MovementSessionMethodDetails) (tx id : Text)
        → AllValid crates (run rest (handle_top_up crates config details tx id) store).1
    unfolding handle_top_up
    handle_top_up-AllValid config details tx id = get_rule rest Keeps store _ _ (
        lift_rule rest Keeps store unchanged _ _ λ s found.
          read_rule rest Keeps store unchanged _ _
            (verify_transaction_on_chain-Reads rest store _ _)
            λ _ _.
              read_rule rest Keeps store unchanged _ _
                (get_on_chain_channel-Reads rest store _ _ _ _ _ _)
                λ on_chain _. check_rule rest Keeps store unchanged _ _ _ λ more.
                  last_update_rule rest (AllValid crates) store id (set_deposit on_chain.deposit) _
                    (λ o t. lift-reads rest t _)
                    (commit-AllValid crates store id _ all λ t made.
                      set_deposit-IsValid crates id s t on_chain.deposit
                        (all id s (ok_or-eq-ok _ _ found)) (ltb→lt _ _ more)
                        (ap (set_deposit on_chain.deposit) (sym (ok_or-eq-ok _ _ found)) ∙ made)))
