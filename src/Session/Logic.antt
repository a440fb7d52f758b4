-- ===== src/Session/Logic.antt =====
-- Programs that are safe whatever runs between their steps: rules for a property of each stored
-- channel that every update keeps and every read may rely on.
use mpp_movement.Prelude.{◌≡◌, refl, Bool, true, false, Option, none, some, ok, err}
use mpp_movement.Text.{Text}
use mpp_movement.Errors.{VerificationError}
use mpp_movement.Session.State.{ChannelState, Outcome, Updater}
use mpp_movement.Session.Effects.{
  Prog, done, getting, updating, calling, HttpRequest, HttpAnswer, ◌>>=◌, lift, check, get, update,
  call, after,
}

module _ (Good : Text → ChannelState → Type 0) where
  abbrev pub GoodOption : Text → Option ChannelState → Type 0
  GoodOption id none = Unit
  GoodOption id (some s) = Good id s

  abbrev pub GoodOutcome : Text → Outcome (Option ChannelState) → Type 0
  GoodOutcome id (ok o) = GoodOption id o
  GoodOutcome id (err e) = Unit

  -- An updater that makes good channels of good ones.
  abbrev pub Preserves : Text → Updater → Type 0
  Preserves id u = (o : Option ChannelState) → GoodOption id o → GoodOutcome id (u o)

  abbrev pub Returns : {A : Type 0} → (A → Type 0) → Outcome A → Type 0
  Returns Q (ok a) = Q a
  Returns Q (err e) = Unit

  -- Each read may answer with any good channel, each call with anything; a result satisfies `Q`.
  abbrev pub Safe : {A : Type 0} → (A → Type 0) → Prog A → Type 0
  Safe Q (done r) = Returns Q r
  Safe Q (getting id k) = (r : Outcome (Option ChannelState)) → GoodOutcome id r → Safe Q (k r)
  Safe Q (updating id u k) =
      Preserves id u × ((r : Outcome (Option ChannelState)) → GoodOutcome id r → Safe Q (k r))
  Safe Q (calling q k) = (a : HttpAnswer) → Safe Q (k a)

  -- A program of which only the updates matter.
  abbrev pub IsSafe : {A : Type 0} → Prog A → Type 0
  IsSafe {A} m = Safe {A = A} (λ _. Unit) m

  pub bind_rule :
      {A B : Type 0} (Q : B → Type 0) (R : A → Type 0) (m : Prog A) (f : A → Prog B)
      → Safe R m
      → ((a : A) → R a → Safe Q (f a))
      → Safe Q (m >>= f)
  unfolding ◌>>=◌
  bind_rule Q R (done (ok a)) f m h = h a m
  bind_rule Q R (done (err e)) f m h = tt
  bind_rule Q R (getting id k) f m h = λ r g. bind_rule Q R (k r) f (m r g) h
  bind_rule Q R (updating id u k) f m h = (m.0, λ r g. bind_rule Q R (k r) f (m.1 r g) h)
  bind_rule Q R (calling q k) f m h = λ a. bind_rule Q R (k a) f (m a) h

  module _ {B : Type 0} (Q : B → Type 0) where
    pub lift_rule :
        {A : Type 0} (r : Outcome A) (f : A → Prog B)
        → ((a : A) → r ≡ ok a → Safe Q (f a))
        → Safe Q (lift r >>= f)
    unfolding ◌>>=◌ lift
    lift_rule (ok a) f h = h a refl
    lift_rule (err e) f h = tt

    pub check_rule :
        (b : Bool) (e : VerificationError) (f : Unit {0} → Prog B)
        → (b ≡ true → Safe Q (f tt))
        → Safe Q (check b e >>= f)
    unfolding ◌>>=◌ check
    check_rule true e f h = h refl
    check_rule false e f h = tt

    pub get_rule :
        (id : Text) (f : Option ChannelState → Prog B)
        → ((o : Option ChannelState) → GoodOption id o → Safe Q (f o))
        → Safe Q (get id >>= f)
    unfolding ◌>>=◌ get
    get_rule id f h (ok o) g = h o g
    get_rule id f h (err e) g = tt

    pub update_rule :
        (id : Text) (u : Updater) (f : Option ChannelState → Prog B)
        → Preserves id u
        → ((o : Option ChannelState) → GoodOption id o → Safe Q (f o))
        → Safe Q (update id u >>= f)
    unfolding ◌>>=◌ update
    update_rule id u f keeps h = (keeps, go)
      where
        go : (r : Outcome (Option ChannelState)) → GoodOutcome id r → Safe Q (after r f)
        go (ok o) g = h o g
        go (err e) g = tt

    pub call_rule :
        (q : HttpRequest) (f : HttpAnswer → Prog B)
        → ((a : HttpAnswer) → Safe Q (f a))
        → Safe Q (call q >>= f)
    unfolding ◌>>=◌ call
    call_rule q f h = h

    pub result_rule : (r : Outcome B) → ((b : B) → r ≡ ok b → Q b) → Safe Q (lift r)
    unfolding lift
    result_rule (ok b) h = h b refl
    result_rule (err e) h = tt

  pub lift-IsSafe : {A : Type 0} (r : Outcome A) → IsSafe (lift r)
  lift-IsSafe r = result_rule (λ _. Unit) r (λ _ _. tt)

  -- A check at the end of a program.
  pub last_check_rule :
      (Q : Unit {0} → Type 0) (b : Bool) (e : VerificationError)
      → (b ≡ true → Q tt)
      → Safe Q (check b e)
  unfolding check
  last_check_rule Q true e h = h refl
  last_check_rule Q false e h = tt
