-- ===== src/Gateway/Pricing.antt =====
-- src/server/axum.rs: the price of a route, and the credentials that the extractor admits.
use mpp_movement.Prelude.{◌≡◌, ap, Option, none, some, ok}
use mpp_movement.Text.{Text}
use mpp_movement.Challenge.Types.{Receipt}
use mpp_movement.Gateway.{HttpTypes, Request, auth_header}
use mpp_movement.Gateway.Extractor.{
  ChargeChallenger, ChargeConfig, from_request_parts, extract, judge,
}

module _ {W : Type 0} (http : HttpTypes) (challenger : ChargeChallenger W) where
  judge-any :
      (route other : ChargeConfig) (verdict : Option Receipt) {receipt : Receipt}
      → judge http challenger route verdict ≡ ok receipt
      → judge http challenger other verdict ≡ ok receipt
  judge-any route other none h = cc
  judge-any route other (some receipt) h = h

  extract-any :
      (route other : ChargeConfig) (credential : Option Text) (w : W) {receipt : Receipt}
      → (extract http challenger route credential w).0 ≡ ok receipt
      → extract http challenger other credential w
        ≡ (ok receipt, (extract http challenger route credential w).1)
  extract-any route other none w h = cc
  extract-any route other (some credential) w h =
      let (verdict, w') = challenger.verify_payment credential w in
      ap (λ r. (r, w')) (judge-any route other verdict h)

  -- The price of a route plays no part in what it admits: a request that a route serves, for a receipt,
  -- every other route of the same challenger serves for the same receipt, whatever the two prices.
  pub price_ignored :
      (route other : ChargeConfig) (req : Request http) (w : W) {receipt : Receipt}
      → (from_request_parts http challenger route req w).0 ≡ ok receipt
      → from_request_parts http challenger other req w
        ≡ (ok receipt, (from_request_parts http challenger route req w).1)
  unfolding from_request_parts
  price_ignored route other req w h = extract-any route other (auth_header http req) w h
