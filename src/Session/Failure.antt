-- ===== src/Session/Failure.antt =====
-- src/protocol/methods/movement/session_method.rs: what a failed request leaves
-- of the store.
use mpp_movement.Prelude.{
  ℕ, ◌≡◌, refl, sym, ap, ◌∙◌, inl, inr, Option, none, some, ok, err, arith, leb, ltb, ok_or,
  Bool-cases, ◌-◌,
}
use mpp_movement.Text.{Text}
use mpp_movement.Voucher.{Bytes}
use mpp_movement.Json.{Json}
use mpp_movement.Map.{lookup, insert}
use mpp_movement.Challenge.Types.{PaymentCredential, Receipt}
use mpp_movement.Errors.{VerificationError}
use mpp_movement.Session.State.{ChannelState, Store, Outcome, Updater, commit}
use mpp_movement.Session.Effects.{Rest, Prog, run, lift, update, ◌>>=◌}
use mpp_movement.Session.Payload.{
  Crates, SessionMethodConfig, MovementSessionMethodDetails, SessionCredentialPayload, open_channel,
  top_up, voucher, close,
}
use mpp_movement.Session.Updating.{deduct, set_deposit, accept, finalize}
use mpp_movement.Session.Handlers.{
  deduct_from_channel, handle_open, handle_top_up, handle_voucher, handle_close, success,
  verify_and_accept_voucher, accept_voucher, dispatch, verify_session,
}
use mpp_movement.Session.Rules.{continue, lift_rule, check_rule, read_rule, get_rule, update_rule}
use mpp_movement.Session.Opening.{HasVerdict, IsFresh, place, handle_open-HasVerdict}
use mpp_movement.Session.Reading.{
  verify_transaction_on_chain-Reads, get_on_chain_channel-Reads, check_signature_lem,
  replay_voucher-Reads,
}

ok-ne-err : {B : Type 0} {b : B} {e : VerificationError} → ◌≡◌ {A = Outcome B} (ok b) (err e) → ⊥
ok-ne-err k = cc

lifted_ok : {B : Type 0} (rest : Rest) (b : B) (s : Store) → (run rest (lift (ok b)) s).0 ≡ ok b
unfolding run lift
lifted_ok rest b s = refl

accept_stores :
    (amount : ℕ) (sig : Bytes) (o : Option ChannelState) → accept amount sig o ≡ ok none → ⊥
unfolding accept
accept_stores amount sig none h = cc
accept_stores amount sig (some s) h = elim (Bool-cases (ltb s.highest_voucher_amount amount)) [
  | inl e ↦ absurd (ground (arith, h, e))
  | inr e ↦ absurd (ground (arith, h, e))
]

deduct_stores : (amount : ℕ) (o : Option ChannelState) → deduct amount o ≡ ok none → ⊥
unfolding deduct
deduct_stores amount none h = cc
deduct_stores amount (some s) h =
    elim (Bool-cases (leb amount (s.highest_voucher_amount - s.spent))) [
      | inl e ↦ absurd (ground (arith, h, e))
      | inr e ↦ absurd (ground (arith, h, e))
    ]

-- What is made of a stored channel is a result.
stored_result :
    {B : Type 0} (rest : Rest) (f : ChannelState → B) (x : VerificationError)
    (o : Option ChannelState) (s : Store)
    → (o ≡ none → ⊥)
    → (b : B) × ((run rest (lift (ok_or o x) >>= λ state. lift (ok (f state))) s).0 ≡ ok b)
unfolding run ◌>>=◌ lift
stored_result rest f x none s h = absurd (h refl)
stored_result rest f x (some t) s h = (f t, refl)

stored_channel :
    (rest : Rest) (x : VerificationError) (o : Option ChannelState) (s : Store)
    → (o ≡ none → ⊥)
    → (b : ChannelState) × ((run rest (lift (ok_or o x)) s).0 ≡ ok b)
unfolding run lift
stored_channel rest x none s h = absurd (h refl)
stored_channel rest x (some t) s h = (t, refl)

module _ (rest : Rest) (store : Store) where
  abbrev pub Spares : {A : Type 0} → Outcome A × Store → Type 0
  Spares p = (e : VerificationError) → p.0 ≡ err e → p.1 ≡ store

  abbrev pub failed : {A : Type 0} (e : VerificationError) → Spares {A = A} (err e, store)
  failed e e' h = refl

  -- An updater that never removes a channel, and a result made of what it has stored.
  last_update-Spares :
      {B : Type 0} (id : Text) (u : Updater) (f : Option ChannelState → Prog B)
      → ((o : Option ChannelState)
          → u (lookup id store) ≡ ok o
          → (s : Store) → (b : B) × ((run rest (f o) s).0 ≡ ok b))
      → Spares (run rest (update id u >>= f) store)
  last_update-Spares {B} id u f h =
      update_rule rest Spares store id u f (go (u (lookup id store)) h)
    where
      go :
          (r : Outcome (Option ChannelState))
          → ((o : Option ChannelState)
              → r ≡ ok o
              → (s : Store) → (b : B) × ((run rest (f o) s).0 ≡ ok b))
          → Spares (continue rest f (commit id r store))
      go (err x) k e g = refl
      go (ok (some t)) k e g =
          let (b, good) = k (some t) refl (insert id t store) in absurd (ok-ne-err (sym good ∙ g))
      go (ok none) k e g = let (b, good) = k none refl _ in absurd (ok-ne-err (sym good ∙ g))

  -- A receipt follows whatever was stored.
  receipt_follows :
      (id : Text) (u : Updater) (receipt : Receipt)
      → Spares (run rest (update id u >>= λ _. lift (ok receipt)) store)
  receipt_follows id u receipt =
      last_update-Spares id u _ λ o made s. (receipt, lifted_ok rest receipt s)

  module _ (crates : Crates) where
    accept-Spares :
        (id : Text) (s : ChannelState) (amount : ℕ) (signature : Text) (min_delta : ℕ)
        → Spares (run rest (accept_voucher crates id s amount signature min_delta) store)
    unfolding accept_voucher
    accept-Spares id s amount signature min_delta = check_rule rest Spares store failed _ _ _ λ _.
        lift_rule rest Spares store failed _ _ λ id_bytes _.
          lift_rule rest Spares store failed _ _ λ sig _.
            read_rule rest Spares store failed _ _
              (check_signature_lem rest store crates s amount id_bytes sig).0
              λ _ _. last_update-Spares id (accept amount sig) _ λ o made t.
                stored_result rest _ _ o t
                  λ gone. accept_stores amount sig (lookup id store) (made ∙ ap (λ v. ok v) gone)

    pub voucher-Spares :
        (config : SessionMethodConfig) (details : MovementSessionMethodDetails)
        (id cumulative signature : Text)
        → Spares (run rest (handle_voucher crates config details id cumulative signature) store)
    unfolding handle_voucher verify_and_accept_voucher
    voucher-Spares config details id cumulative signature = get_rule rest Spares store _ _ (
        lift_rule rest Spares store failed _ _ λ s _. check_rule rest Spares store failed _ _ _ λ _.
          lift_rule rest Spares store failed _ _ λ amount _.
            check_rule rest Spares store failed _ _ _ λ _.
              elim (Bool-cases (leb amount s.highest_voucher_amount)) [
                | inl low ↦
                    rw low (λ e h. replay_voucher-Reads rest store crates id s amount signature)
                | inr high ↦ rw high (accept-Spares id s amount signature _)
              ])

    pub close-Spares :
        (id cumulative signature : Text)
        → Spares (run rest (handle_close crates id cumulative signature) store)
    unfolding handle_close
    close-Spares id cumulative signature = get_rule rest Spares store _ _ (
        lift_rule rest Spares store failed _ _ λ s _. check_rule rest Spares store failed _ _ _ λ _.
          lift_rule rest Spares store failed _ _ λ amount _.
            check_rule rest Spares store failed _ _ _ λ _.
              lift_rule rest Spares store failed _ _ λ id_bytes _.
                lift_rule rest Spares store failed _ _ λ sig _.
                  read_rule rest Spares store failed _ _
                    (check_signature_lem rest store crates s amount id_bytes sig).0
                    λ _ _. receipt_follows id (finalize amount sig) (success crates id))

    pub top_up-Spares :
        (config : SessionMethodConfig) (details : MovementSessionMethodDetails) (tx id : Text)
        → Spares (run rest (handle_top_up crates config details tx id) store)
    unfolding handle_top_up
    top_up-Spares config details tx id = get_rule rest Spares store _ _ (
        lift_rule rest Spares store failed _ _ λ s _.
          read_rule rest Spares store failed _ _ (verify_transaction_on_chain-Reads rest store _ _)
            λ _ _.
              read_rule rest Spares store failed _ _
                (get_on_chain_channel-Reads rest store _ _ _ _ _ _)
                λ on_chain _.
                  check_rule rest Spares store failed _ _ _
                    λ _. receipt_follows id (set_deposit on_chain.deposit) (success crates tx))

    pub open-Spares :
        (config : SessionMethodConfig) (details : MovementSessionMethodDetails) (tx id : Text)
        (signer : Option Text) (cumulative signature : Text)
        → Spares
            (run rest (handle_open crates config details tx id signer cumulative signature) store)
    open-Spares config details tx id signer cumulative signature e h =
        ap (λ (p : Outcome Receipt × Store). p.1) (v.runs store)
        ∙ spared v.verdict (sym (ap (λ (p : Outcome Receipt × Store). p.0) (v.runs store)) ∙ h)
      where
        v :
            HasVerdict rest id
              (success crates tx)
              (IsFresh crates rest id)
              (handle_open crates config details tx id signer cumulative signature)
        v = handle_open-HasVerdict crates rest config details tx id signer cumulative signature

        spared :
            (r : Outcome ChannelState)
            → (place id (success crates tx) r store).0 ≡ err e
            → (place id (success crates tx) r store).1 ≡ store
        spared (ok state) k = absurd (ok-ne-err k)
        spared (err x) k = refl

    dispatch-Spares :
        (config : SessionMethodConfig) (details : MovementSessionMethodDetails)
        (payload : SessionCredentialPayload)
        → Spares (run rest (dispatch crates config details payload) store)
    unfolding dispatch
    dispatch-Spares config details (open_channel tx id signer amount sig) =
        open-Spares config details tx id signer amount sig
    dispatch-Spares config details (top_up tx id extra) = top_up-Spares config details tx id
    dispatch-Spares config details (voucher id amount sig) =
        voucher-Spares config details id amount sig
    dispatch-Spares config details (close id amount sig) = close-Spares id amount sig

    -- A session credential that ends in an error, whichever the action and the error, leaves the store
    -- as it was.
    pub failed_session_spares :
        (config : SessionMethodConfig) (credential : PaymentCredential) (details : Option Json)
        (e : VerificationError)
        → (run rest (verify_session crates config credential details) store).0 ≡ err e
        → (run rest (verify_session crates config credential details) store).1 ≡ store
    unfolding verify_session
    failed_session_spares config credential details = check_rule rest Spares store failed _ _ _ λ _.
        check_rule rest Spares store failed _ _ _
          λ _. lift_rule rest Spares store failed _ _ λ payload _. dispatch-Spares config _ payload

  -- A charge on a channel that ends in an error leaves the store as it was.
  pub failed_charge_spares :
      (id : Text) (amount : ℕ) (e : VerificationError)
      → (run rest (deduct_from_channel id amount) store).0 ≡ err e
      → (run rest (deduct_from_channel id amount) store).1 ≡ store
  unfolding deduct_from_channel
  failed_charge_spares id amount = last_update-Spares id (deduct amount) _ λ o made s.
      stored_channel rest _ o s
        λ gone. deduct_stores amount (lookup id store) (made ∙ ap (λ v. ok v) gone)
