-- ===== src/Session/Rules.antt =====
-- Rules for what a program alone returns and leaves in the store, one for each kind of step.
use mpp_movement.Prelude.{◌≡◌, refl, sym, subst, Bool, true, false, Option, ok, err}
use mpp_movement.Text.{Text}
use mpp_movement.Map.{lookup}
use mpp_movement.Errors.{VerificationError}
use mpp_movement.Session.State.{
  ChannelState, Store, Outcome, Updater, get_channel, update_channel, commit,
}
use mpp_movement.Session.Effects.{
  Prog, done, getting, updating, calling, Rest, after, ◌>>=◌, lift, check, get, update, run,
}

abbrev pub continue : {A B : Type 0} → Rest → (A → Prog B) → Outcome A × Store → Outcome B × Store
continue rest f (ok a, store) = run rest (f a) store
continue rest f (err e, store) = (err e, store)

pub run-bind :
    {A B : Type 0} (rest : Rest) (m : Prog A) (f : A → Prog B) (store : Store)
    → run rest (m >>= f) store ≡ continue rest f (run rest m store)
unfolding run ◌>>=◌
run-bind rest (done (ok a)) f store = refl
run-bind rest (done (err e)) f store = refl
run-bind rest (getting id k) f store = run-bind rest (k (get_channel id store)) f store
run-bind rest (updating id u k) f store =
    run-bind rest (k (update_channel id u store).0) f (update_channel id u store).1
run-bind rest (calling q k) f store = run-bind rest (k (rest q)) f store

module _ {B : Type 0} (rest : Rest) (Q : Outcome B × Store → Type 0) (store : Store)
    (fails : (e : VerificationError) → Q (err e, store)) where
  pub lift_rule :
      {A : Type 0} (r : Outcome A) (f : A → Prog B)
      → ((a : A) → r ≡ ok a → Q (run rest (f a) store))
      → Q (run rest (lift r >>= f) store)
  unfolding run ◌>>=◌ lift
  lift_rule (ok a) f h = h a refl
  lift_rule (err e) f h = fails e

  pub check_rule :
      (b : Bool) (e : VerificationError) (f : Unit {0} → Prog B)
      → (b ≡ true → Q (run rest (f tt) store))
      → Q (run rest (check b e >>= f) store)
  unfolding run ◌>>=◌ check
  check_rule true e f h = h refl
  check_rule false e f h = fails e

  pub result_rule :
      (r : Outcome B) → ((b : B) → r ≡ ok b → Q (ok b, store)) → Q (run rest (lift r) store)
  unfolding run lift
  result_rule (ok b) h = h b refl
  result_rule (err e) h = fails e

  -- A part that leaves the store alone.
  pub read_rule :
      {A : Type 0} (m : Prog A) (f : A → Prog B)
      → (run rest m store).1 ≡ store
      → ((a : A) → (run rest m store).0 ≡ ok a → Q (run rest (f a) store))
      → Q (run rest (m >>= f) store)
  read_rule {A} m f same h = subst Q (sym (run-bind rest m f store)) (go (run rest m store) same h)
    where
      go :
          (r : Outcome A × Store)
          → r.1 ≡ store
          → ((a : A) → r.0 ≡ ok a → Q (run rest (f a) store))
          → Q (continue rest f r)
      go (ok a, s) e k = subst (λ (t : Store). Q (run rest (f a) t)) (sym e) (k a refl)
      go (err x, s) e k = subst (λ (t : Store). Q (err x, t)) (sym e) (fails x)

module _ {B : Type 0} (rest : Rest) (Q : Outcome B × Store → Type 0) (store : Store) where
  pub get_rule :
      (id : Text) (f : Option ChannelState → Prog B)
      → Q (run rest (f (lookup id store)) store)
      → Q (run rest (get id >>= f) store)
  unfolding run ◌>>=◌ get get_channel
  get_rule id f h = h

  pub ok_rule : {b : B} → Q (ok b, store) → Q (run rest (lift (ok b)) store)
  unfolding run lift
  ok_rule h = h

  pub update_rule :
      (id : Text) (u : Updater) (f : Option ChannelState → Prog B)
      → Q (continue rest f (commit id (u (lookup id store)) store))
      → Q (run rest (update id u >>= f) store)
  unfolding run ◌>>=◌ update update_channel
  update_rule id u f h = go (commit id (u (lookup id store)) store) h
    where
      go :
          (r : Outcome (Option ChannelState) × Store)
          → Q (continue rest f r)
          → Q (run rest (after r.0 f) r.1)
      go (ok a, s) k = k
      go (err e, s) k = k

-- A check at the end of a program.
pub last_check_rule :
    (rest : Rest) (Q : Outcome (Unit {0}) × Store → Type 0) (store : Store) (b : Bool)
    (e : VerificationError)
    → Q (err e, store)
    → (b ≡ true → Q (ok tt, store))
    → Q (run rest (check b e) store)
unfolding run check
last_check_rule rest Q store true e failed passed = passed refl
last_check_rule rest Q store false e failed passed = failed

-- An update that only checks and a receipt follow.
pub last_update_rule :
    {B : Type 0} (rest : Rest) (I : Store → Type 0) (store : Store) (id : Text) (u : Updater)
    (f : Option ChannelState → Prog B)
    → ((o : Option ChannelState) (s : Store) → (run rest (f o) s).1 ≡ s)
    → I (commit id (u (lookup id store)) store).1
    → I (run rest (update id u >>= f) store).1
last_update_rule rest I store id u f reads h =
    update_rule rest (λ r. I r.1) store id u f (go (commit id (u (lookup id store)) store) h)
  where
    go : (r : Outcome (Option ChannelState) × Store) → I r.1 → I (continue rest f r).1
    go (ok a, s) k = subst I (sym (reads a s)) k
    go (err e, s) k = k

-- Checks and a receipt: nothing is written.
pub receipt-reads :
    {A B : Type 0} (rest : Rest) (store : Store) (r : Outcome A) (f : A → B)
    → (run rest (lift r >>= λ a. lift (ok (f a))) store).1 ≡ store
unfolding run ◌>>=◌ lift
receipt-reads rest store (ok a) f = refl
receipt-reads rest store (err e) f = refl

pub lift-reads :
    {A : Type 0} (rest : Rest) (store : Store) (r : Outcome A) → (run rest (lift r) store).1 ≡ store
unfolding run lift
lift-reads rest store r = refl
