-- ===== src/Gateway/Frugal.antt =====
-- src/client/fetch.rs and src/client/middleware.rs: when a client pays.
use mpp_movement.Prelude.{
  ◌≡◌, refl, ◌⊎◌, inl, inr, true, false, Bool, Bool-cases, Option, none, some, Result, ok, err,
  ◌==◌, ==_iff,
}
use mpp_movement.Text.{Text}
use mpp_movement.Challenge.Types.{Codec, PaymentChallenge}
use mpp_movement.Headers.Tokens.{Tokens}
use mpp_movement.Gateway.{HttpTypes, Request, Response}
use mpp_movement.Gateway.Fetch

module _ (http : HttpTypes) (codec : Codec) (tokens : Tokens) {N P : Type 0}
    (provider : Fetch.PaymentProvider P)
    (send : Request http → N → Option (Response http) × N) where
  -- A payment that the first answer has asked for.
  pub record IsAsked (req : Request http) (n : N) (p paid : P) : Type 0 where
    pub answer : Response http
    pub answered : (send req n).0 ≡ some answer
    pub asks : answer.status ≡ 402
    pub challenge : PaymentChallenge
    pub reads : Fetch.read_response http codec tokens provider send answer ≡ ok challenge
    pub pays : paid ≡ (provider.pay challenge p).1

  Result-cases : {E A : Type 0} (r : Result E A) → ((a : A) × (r ≡ ok a)) ⊎ ((e : E) × (r ≡ err e))
  Result-cases (ok a) = inl (a, refl)
  Result-cases (err e) = inr (e, refl)

  -- The provider's state after each way to go on.
  send_again_lem :
      (req : Request http) (auth : Result Fetch.HttpError Text) (n : N) (p : P)
      → (Fetch.send_again http codec tokens provider send req auth n p).1.1 ≡ p
  send_again_lem req (err e) n p = refl
  send_again_lem req (ok auth) n p = sent_with (http.from_str auth)
    where
      sent_with :
          (v : Option http.HeaderValue)
          → (Fetch.send_with http codec tokens provider send req v n p).1.1 ≡ p
      sent_with none = refl
      sent_with (some v) = refl

  replace_again_lem :
      (req : Request http) (auth : Result Fetch.HttpError Text) (n : N) (p : P)
      → (Fetch.replace_again http codec tokens provider send req auth n p).1.1 ≡ p
  replace_again_lem req (err e) n p = refl
  replace_again_lem req (ok auth) n p = sent_with (http.from_str auth)
    where
      sent_with :
          (v : Option http.HeaderValue)
          → (Fetch.send_replaced http codec tokens provider send req v n p).1.1 ≡ p
      sent_with none = refl
      sent_with (some v) = refl

  settle_frugal :
      (req : Request http) (n n' : N) (p : P) (resp : Option (Response http))
      → (send req n).0 ≡ resp
      → let paid = (Fetch.settle_response http codec tokens provider send req resp n' p).1.1 in
        (paid ≡ p) ⊎ IsAsked req n p paid
  settle_frugal req n n' p none h = inl refl
  settle_frugal req n n' p (some resp) h = elim (Bool-cases (resp.status == 402)) [
    | inr other ↦ inl (rw (other) refl)
    | inl asks ↦ elim (Result-cases (Fetch.read_response http codec tokens provider send resp)) [
      | inr (e, bad) ↦ inl (rw (asks) (rw (bad) refl))
      | inl (c, read) ↦ inr (record {
        answer = resp;
        answered = h;
        asks = (==_iff resp.status 402).0 asks;
        challenge = c;
        reads = read;
        pays = rw (asks) (rw (read) (send_again_lem req _ n' (provider.pay c p).1));
      })
    ]
  ]

  handle_response_frugal :
      (clones : Bool) (req : Request http) (n n' : N) (p : P) (resp : Option (Response http))
      → (send req n).0 ≡ resp
      → let paid =
          (Fetch.handle_response http codec tokens provider send clones req resp n' p).1.1 in
        (paid ≡ p) ⊎ IsAsked req n p paid
  handle_response_frugal clones req n n' p none h = inl refl
  handle_response_frugal false req n n' p (some resp) h = elim (Bool-cases (resp.status == 402)) [
    | inl asks ↦ inl (rw (asks) refl)
    | inr other ↦ inl (rw (other) refl)
  ]
  handle_response_frugal true req n n' p (some resp) h = elim (Bool-cases (resp.status == 402)) [
    | inr other ↦ inl (rw (other) refl)
    | inl asks ↦ elim (Result-cases (Fetch.read_response http codec tokens provider send resp)) [
      | inr (e, bad) ↦ inl (rw (asks) (rw (bad) refl))
      | inl (c, read) ↦ inr (record {
        answer = resp;
        answered = h;
        asks = (==_iff resp.status 402).0 asks;
        challenge = c;
        reads = read;
        pays = rw (asks) (rw (read) (replace_again_lem req _ n' (provider.pay c p).1));
      })
    ]
  ]

  -- A client pays for a request once at most, and only for the challenge in an answer of status 402 to
  -- it: otherwise the provider is as it was. So for `send_with_payment` and for the middleware.
  pub payment-IsAsked :
      (clones : Bool) (req : Request http) (n : N) (p : P)
      → let fetched =
          (Fetch.send_with_payment http codec tokens provider send clones req n p).1.1 in
        let handled = (Fetch.handle http codec tokens provider send clones req n p).1.1 in
        ((fetched ≡ p) ⊎ IsAsked req n p fetched) × ((handled ≡ p) ⊎ IsAsked req n p handled)
  unfolding Fetch.send_with_payment Fetch.handle
  payment-IsAsked false req n p =
      (inl refl, handle_response_frugal false req n (send req n).1 p (send req n).0 refl)
  payment-IsAsked true req n p = (
    settle_frugal req n (send req n).1 p (send req n).0 refl,
    handle_response_frugal true req n (send req n).1 p (send req n).0 refl,
  )
