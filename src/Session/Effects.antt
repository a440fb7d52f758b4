-- ===== src/Session/Effects.antt =====
-- Handlers as programs: each call of the store and of the REST API is a step, between which other
-- requests may run. `run` runs one program alone.
use mpp_movement.Prelude.{ℕ, Bool, true, false, Option, ok, err}
use mpp_movement.Text.{Text}
use mpp_movement.Json.{Json}
use mpp_movement.Errors.{VerificationError}
use mpp_movement.Session.State.{ChannelState, Store, Outcome, Updater, get_channel, update_channel}

pub data HttpRequest : Type 0 where
  http_get : (url : Text) → HttpRequest
  http_post : (url : Text) (function registry channel : Text) → HttpRequest

-- No answer at all, or a status with the body as JSON where it parses.
pub data HttpAnswer : Type 0 where
  unreachable : HttpAnswer
  answer : (status : ℕ) (body : Option Json) → HttpAnswer

abbrev pub Rest : Type 0
Rest = HttpRequest → HttpAnswer

pub data Prog (A : Type 0) : Type 0 where
  done : Outcome A → Prog A
  getting : Text → (Outcome (Option ChannelState) → Prog A) → Prog A
  updating : Text → Updater → (Outcome (Option ChannelState) → Prog A) → Prog A
  calling : HttpRequest → (HttpAnswer → Prog A) → Prog A

abbrev pub after : {A B : Type 0} → Outcome A → (A → Prog B) → Prog B
after (ok a) f = f a
after (err e) f = done (err e)

-- `?` behind an await.
infixl 5 ◌>>=◌ ◌>>◌
unfoldable pub ◌>>=◌ : {A B : Type 0} → Prog A → (A → Prog B) → Prog B
done r >>= f = after r f
getting id k >>= f = getting id (λ r. k r >>= f)
updating id u k >>= f = updating id u (λ r. k r >>= f)
calling q k >>= f = calling q (λ r. k r >>= f)

abbrev pub ◌>>◌ : {B : Type 0} → Prog (Unit {0}) → Prog B → Prog B
m >> k = m >>= λ _. k

unfoldable pub lift : {A : Type 0} → Outcome A → Prog A
lift r = done r

-- An early return of an error, unless the test holds.
unfoldable pub check : Bool → VerificationError → Prog (Unit {0})
check true e = done (ok tt)
check false e = done (err e)

-- `store.get_channel(id).await?`
unfoldable pub get : Text → Prog (Option ChannelState)
get id = getting id (λ r. done r)

-- `store.update_channel(id, updater).await?`
unfoldable pub update : Text → Updater → Prog (Option ChannelState)
update id u = updating id u (λ r. done r)

unfoldable pub call : HttpRequest → Prog HttpAnswer
call q = calling q (λ r. done (ok r))

unfoldable pub run : {A : Type 0} → Rest → Prog A → Store → Outcome A × Store
unfolding get_channel
run rest (done r) store = (r, store)
run rest (getting id k) store = run rest (k (get_channel id store)) store
run rest (updating id u k) store =
    let (r, store') = update_channel id u store in run rest (k r) store'
run rest (calling q k) store = run rest (k (rest q)) store
