-- ===== src/Session/Opening.antt =====
-- src/protocol/methods/movement/session_method.rs: `handle_open`, its verdict and
-- the channel that it writes.
use mpp_movement.Prelude.{
  ◌≡◌, refl, sym, ◌∙◌, subst, inl, inr, Bool, true, false, Option, ok, err, arith, leb→le, ==_iff,
  ok_or-eq-ok, ok_or, [], Option-cases,
}
use mpp_movement.Text.{Text}
use mpp_movement.Text.Number.{parse_uint-lt}
use mpp_movement.Map.{insert, Holds-insert}
use mpp_movement.Voucher.{Bytes}
use mpp_movement.Challenge.Types.{Receipt}
use mpp_movement.Errors.{VerificationError}
use mpp_movement.Session.State.{ChannelState, Store, Outcome, update_channel}
use mpp_movement.Session.Effects.{Rest, Prog, run, ◌>>=◌, lift, check, update, call}
use mpp_movement.Session.Chain.{verify_transaction_on_chain, get_on_chain_channel, unprefixed}
use mpp_movement.Session.Payload.{Crates, SessionMethodConfig, MovementSessionMethodDetails}
use mpp_movement.Session.Updating.{replace}
use mpp_movement.Session.Handlers.{handle_open, success}
use mpp_movement.Session.Rules.{run-bind}
use mpp_movement.Session.Validity.{IsValid, AllValid}

-- The result of a part that only reads, whatever the store.
abbrev IsAnswered : {A : Type 0} → Rest → Prog A → Type 0
IsAnswered {A} rest m = (r : Outcome A) × ((store : Store) → run rest m store ≡ (r, store))

transaction-IsAnswered :
    (rest : Rest) (url hash : Text) → IsAnswered rest (verify_transaction_on_chain url hash)
unfolding verify_transaction_on_chain run ◌>>=◌ lift call
transaction-IsAnswered rest url hash = (_, λ store. refl)

channel-IsAnswered :
    (rest : Rest) (decode : Text → Option Bytes) (encode : Bytes → Text)
    (url module_address registry id : Text)
    → IsAnswered rest (get_on_chain_channel decode encode url module_address registry id)
unfolding get_on_chain_channel run ◌>>=◌ lift call
channel-IsAnswered rest decode encode url module_address registry id = (
  (run rest (get_on_chain_channel decode encode url module_address registry id) []).0,
  λ store. elim (Option-cases (decode (unprefixed id))) [
    | inl e ↦ rw (e, ok_or) refl
    | inr (bs, e) ↦ rw (e, ok_or) refl
  ],
)

-- The store after a verdict on the channel `id`.
abbrev pub place : Text → Receipt → Outcome ChannelState → Store → Outcome Receipt × Store
place id receipt (ok state) store = (ok receipt, insert id state store)
place id receipt (err e) store = (err e, store)

module _ (rest : Rest) (id : Text) (receipt : Receipt) (Good : ChannelState → Type 0) where
  pub record HasVerdict (p : Prog Receipt) : Type 0 where
    pub verdict : Outcome ChannelState
    pub runs : (store : Store) → run rest p store ≡ place id receipt verdict store
    pub good : (state : ChannelState) → verdict ≡ ok state → Good state

  lift-HasVerdict :
      {A : Type 0} (r : Outcome A) (f : A → Prog Receipt)
      → ((a : A) → r ≡ ok a → HasVerdict (f a))
      → HasVerdict (lift r >>= f)
  unfolding run ◌>>=◌ lift
  lift-HasVerdict (ok a) f h =
      let v = h a refl in record { verdict = v.verdict; runs = v.runs; good = v.good }
  lift-HasVerdict (err e) f h = record {
    verdict = err e;
    runs = λ store. refl;
    good = λ state e'. absurd (cc);
  }

  check-HasVerdict :
      (b : Bool) (e : VerificationError) (f : Unit {0} → Prog Receipt)
      → (b ≡ true → HasVerdict (f tt))
      → HasVerdict (check b e >>= f)
  unfolding run ◌>>=◌ check
  check-HasVerdict true e f h =
      let v = h refl in record { verdict = v.verdict; runs = v.runs; good = v.good }
  check-HasVerdict false e f h = record {
    verdict = err e;
    runs = λ store. refl;
    good = λ state e'. absurd (cc);
  }

  read-HasVerdict :
      {A : Type 0} (m : Prog A) (f : A → Prog Receipt)
      → IsAnswered rest m
      → ((a : A) → HasVerdict (f a))
      → HasVerdict (m >>= f)
  read-HasVerdict m f (ok a, same) h =
      let v = h a in
      record {
        verdict = v.verdict;
        runs = λ store. run-bind rest m f store ∙ (rw (same store) (v.runs store));
        good = v.good;
      }
  read-HasVerdict m f (err e, same) h = record {
    verdict = err e;
    runs = λ store. run-bind rest m f store ∙ (rw (same store) refl);
    good = λ state e'. absurd (cc);
  }

  replace-HasVerdict :
      (state : ChannelState)
      → Good state
      → HasVerdict (update id (replace state) >>= λ _. lift (ok receipt))
  unfolding run ◌>>=◌ lift update update_channel replace
  replace-HasVerdict state h = record {
    verdict = ok state;
    runs = λ store. refl;
    good = λ state' e. subst Good (ground (arith, e)) h;
  }

module _ (crates : Crates) (rest : Rest) where
  open crates use {crypto}

  -- A channel as `handle_open` writes it.
  pub record IsFresh (id : Text) (state : ChannelState) : Type 0 where
    pub valid : IsValid crates id state
    pub unspent : state.spent ≡ 0
    pub unit_count : state.units ≡ 0
    pub open_still : state.finalized ≡ false

  pub handle_open-HasVerdict :
      (config : SessionMethodConfig) (details : MovementSessionMethodDetails) (tx id : Text)
      (signer : Option Text) (cumulative signature : Text)
      → HasVerdict rest id
          (success crates tx)
          (IsFresh id)
          (handle_open crates config details tx id signer cumulative signature)
  unfolding handle_open
  handle_open-HasVerdict config details tx id signer cumulative signature =
      read-HasVerdict rest id r G _ _ (transaction-IsAnswered rest _ _) λ _.
        read-HasVerdict rest id r G _ _ (channel-IsAnswered rest _ _ _ _ _ _) λ on_chain.
          check-HasVerdict rest id r G _ _ _ λ _. check-HasVerdict rest id r G _ _ _ λ _.
            lift-HasVerdict rest id r G _ _ λ amount parsed.
              check-HasVerdict rest id r G _ _ _ λ within.
                lift-HasVerdict rest id r G _ _ λ sig_bytes _.
                  lift-HasVerdict rest id r G _ _ λ sig _. lift-HasVerdict rest id r G _ _ λ key _.
                    check-HasVerdict rest id r G _ _ _ λ keyed.
                      lift-HasVerdict rest id r G _ _ λ id_bytes decoded.
                        check-HasVerdict rest id r G _ _ _ λ verified.
                          replace-HasVerdict rest id r G _ (record {
                            valid = record {
                              named = refl;
                              keyed = (==_iff _ _).0 keyed;
                              covered = omega arith;
                              bounded =
                                  parse_uint-lt _ cumulative amount (omega arith)
                                    (ok_or-eq-ok _ _ parsed);
                              funded = λ _. leb→le _ _ within;
                              signed = record {
                                signature = sig;
                                channel_id_bytes = id_bytes;
                                stored = refl;
                                decoded = decoded;
                                verified = verified;
                              };
                            };
                            unspent = refl;
                            unit_count = refl;
                            open_still = refl;
                          })
    where
      r : Receipt
      r = success crates tx

      G : ChannelState → Type 0
      G = IsFresh id

  pub handle_open-AllValid :
      (config : SessionMethodConfig) (details : MovementSessionMethodDetails) (tx id : Text)
      (signer : Option Text) (cumulative signature : Text) (store : Store)
      → AllValid crates store
      → AllValid crates
          (run rest (handle_open crates config details tx id signer cumulative signature) store).1
  handle_open-AllValid config details tx id signer cumulative signature store all =
      subst (λ (p : Outcome Receipt × Store). AllValid crates p.1) (sym (v.runs store))
        (placed v.verdict v.good)
    where
      v :
          HasVerdict rest id
            (success crates tx)
            (IsFresh id)
            (handle_open crates config details tx id signer cumulative signature)
      v = handle_open-HasVerdict config details tx id signer cumulative signature

      placed :
          (verdict : Outcome ChannelState)
          → ((state : ChannelState) → verdict ≡ ok state → IsFresh id state)
          → AllValid crates (place id (success crates tx) verdict store).1
      placed (ok state) good =
          Holds-insert (IsValid crates) store id state all (good state refl).valid
      placed (err e) good = all
