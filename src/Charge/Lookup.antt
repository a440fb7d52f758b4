-- ===== src/Charge/Lookup.antt =====
-- What `ChargeMethod::verify` of src/protocol/methods/movement/method.rs accepts, and what it forgets.
use mpp_movement.Prelude.{ℕ, ◌≡◌, refl, true, ◌++◌, some, ok, err}
use mpp_movement.Text.{Text, codes, trim_end_matches}
use mpp_movement.Json.{Json}
use mpp_movement.Challenge.Types.{PaymentCredential}
use mpp_movement.Session.State.{Store, Outcome}
use mpp_movement.Session.Effects.{Rest, Prog, answer, http_get, run, lift, call, ◌>>=◌}
use mpp_movement.Session.Chain.{unprefixed, is_success}
use mpp_movement.Charge.Request.{ChargeRequest}
use mpp_movement.Charge.Method.{ChargeCrates, answered, verify_tx_hash, verify_charge, paid_hash}
use mpp_movement.Charge.Sound.{IsPayment}

module _ (crates : ChargeCrates) (rest : Rest) (rest_url : Text) where
  abbrev pub transaction_url : Text → Text
  transaction_url tx_hash =
      trim_end_matches b'/' rest_url ++ (codes "/transactions/by_hash/0x" ++ unprefixed tx_hash)

  -- The transaction that the API knows under a hash.
  pub record IsPaidBy (request : ChargeRequest) (tx_hash : Text) : Type 0 where
    pub tx : Json
    pub status : ℕ
    pub known : rest (http_get (transaction_url tx_hash)) ≡ answer status (some tx)
    pub succeeds : is_success status ≡ true
    pub pays : IsPayment crates.to_lowercase tx request

  lift_forgets :
      {A B : Type 0} (store later : Store) (r : Outcome A) (f : A → Prog B)
      → ((a : A) → run rest (f a) later ≡ ((run rest (f a) store).0, later))
      → run rest (lift r >>= f) later ≡ ((run rest (lift r >>= f) store).0, later)
  unfolding run ◌>>=◌ lift
  lift_forgets store later (ok a) f h = h a
  lift_forgets store later (err e) f h = refl

  -- The charge method keeps no memory: the result for a credential is the same whatever has been
  -- accepted before, and the store is left as it is. One transaction can pay for any number of
  -- requests of the same amount, currency and recipient.
  pub verify_charge_forgets :
      (credential : PaymentCredential) (request : ChargeRequest) (store later : Store)
      → run rest (verify_charge crates rest_url credential request) later
        ≡ ((run rest (verify_charge crates rest_url credential request) store).0, later)
  unfolding verify_charge verify_tx_hash run ◌>>=◌ lift call
  verify_charge_forgets credential request store later =
      lift_forgets store later (paid_hash crates credential) _ λ tx_hash.
        lift_forgets store later
          (answered crates request (rest (http_get (transaction_url tx_hash)))) _ λ _. refl
