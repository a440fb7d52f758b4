-- ===== src/Session/Growth.antt =====
-- src/protocol/methods/movement/session_method.rs: what an action other than
-- `open` does to the channels of a store.
use mpp_movement.Prelude.{
  ℕ, ◌-◌, ◌≤◌, ◌<◌, ◌≡◌, refl, ap, ◌∙◌, inl, inr, true, Option, none, some, ok, err, arith, leb,
  ltb, leb→le, ltb→lt, Bool-cases,
}
use mpp_movement.Text.{Text, text_eq}
use mpp_movement.Text.Equality.{text_eq_sound}
use mpp_movement.Map.{lookup, lookup-insert, lookup-remove}
use mpp_movement.Voucher.{Bytes}
use mpp_movement.Session.State.{ChannelState, Store, Outcome, commit}
use mpp_movement.Session.Payload.{Crates}
use mpp_movement.Session.Updating.{deduct, set_deposit, accept, finalize}
use mpp_movement.Session.Validity.{IsValid}

pub record Grows (s t : ChannelState) : Type 0 where
  pub same_id : t.channel_id ≡ s.channel_id
  pub same_key : t.authorized_signer_pubkey ≡ s.authorized_signer_pubkey
  pub deposits : s.deposit ≤ t.deposit
  pub vouchers : s.highest_voucher_amount ≤ t.highest_voucher_amount
  pub spending : s.spent ≤ t.spent
  pub stays_closed : s.finalized ≡ true → t.finalized ≡ true

pub Grows-refl : (s : ChannelState) → Grows s s
Grows-refl s = record {
  same_id = refl;
  same_key = refl;
  deposits = omega arith;
  vouchers = omega arith;
  spending = omega arith;
  stays_closed = λ h. h;
}

pub Grows-trans : (s t u : ChannelState) → Grows s t → Grows t u → Grows s u
Grows-trans s t u g h = record {
  same_id = h.same_id ∙ g.same_id;
  same_key = h.same_key ∙ g.same_key;
  deposits = omega (arith, g.deposits, h.deposits);
  vouchers = omega (arith, g.vouchers, h.vouchers);
  spending = omega (arith, g.spending, h.spending);
  stays_closed = λ c. h.stays_closed (g.stays_closed c);
}

-- Every channel of the first store is in the second, grown.
abbrev pub HasGrown : Store → Store → Type 0
HasGrown store later =
    (id : Text) (s : ChannelState)
    → lookup id store ≡ some s
    → (t : ChannelState) × (lookup id later ≡ some t) × (Grows s t)

pub HasGrown-refl : (store : Store) → HasGrown store store
HasGrown-refl store id s e = (s, e, Grows-refl s)

-- What an updater may make of a channel: a grown one, or an error.
abbrev pub Moves : ChannelState → Outcome (Option ChannelState) → Type 0
Moves s (ok (some t)) = Grows s t
Moves s (ok none) = ⊥
Moves s (err e) = Unit {0}

pub commit-HasGrown :
    (store : Store) (id : Text) (r : Outcome (Option ChannelState))
    → ((s : ChannelState) → lookup id store ≡ some s → Moves s r)
    → HasGrown store (commit id r store).1
commit-HasGrown store id (err e) h j s found = HasGrown-refl store j s found
commit-HasGrown store id (ok (some t)) h j s e = elim (Bool-cases (text_eq id j)) [
  | inl same ↦
      let stored : lookup id store ≡ some s =
        ap (λ k. lookup k store) (text_eq_sound id j same) ∙ e in
      (t, lookup-insert id j t store ∙ rw same refl, h s stored)
  | inr other ↦ (s, lookup-insert id j t store ∙ rw other e, Grows-refl s)
]
commit-HasGrown store id (ok none) h j s e = elim (Bool-cases (text_eq id j)) [
  | inl same ↦ absurd (h s (ap (λ k. lookup k store) (text_eq_sound id j same) ∙ e))
  | inr other ↦ (s, lookup-remove id j store ∙ rw other e, Grows-refl s)
]

module _ (crates : Crates) where
  pub deduct-Moves :
      (id : Text) (s : ChannelState) (amount : ℕ)
      → IsValid crates id s
      → Moves s (deduct amount (some s))
  unfolding deduct
  deduct-Moves id s amount v = elim (Bool-cases (leb amount (s.highest_voucher_amount - s.spent))) [
    | inl enough ↦ rw enough (record {
      same_id = refl;
      same_key = refl;
      deposits = omega arith;
      vouchers = omega arith;
      spending = omega (arith, leb→le _ _ enough, v.covered, v.bounded);
      stays_closed = λ c. c;
    })
    | inr short ↦ rw short tt
  ]

pub set_deposit-Moves :
    (s : ChannelState) (new_deposit : ℕ)
    → s.deposit < new_deposit
    → Moves s (set_deposit new_deposit (some s))
unfolding set_deposit
set_deposit-Moves s new_deposit more = record {
  same_id = refl;
  same_key = refl;
  deposits = omega (arith, more);
  vouchers = omega arith;
  spending = omega arith;
  stays_closed = λ c. c;
}

pub accept-Moves :
    (s : ChannelState) (amount : ℕ) (sig : Bytes) → Moves s (accept amount sig (some s))
unfolding accept
accept-Moves s amount sig = elim (Bool-cases (ltb s.highest_voucher_amount amount)) [
  | inl higher ↦ rw higher (record {
    same_id = refl;
    same_key = refl;
    deposits = omega arith;
    vouchers = omega (arith, ltb→lt _ _ higher);
    spending = omega arith;
    stays_closed = λ c. c;
  })
  | inr lower ↦ rw lower (Grows-refl s)
]

pub finalize-Moves :
    (s : ChannelState) (amount : ℕ) (sig : Bytes)
    → s.highest_voucher_amount ≤ amount
    → Moves s (finalize amount sig (some s))
unfolding finalize
finalize-Moves s amount sig above = record {
  same_id = refl;
  same_key = refl;
  deposits = omega arith;
  vouchers = omega (arith, above);
  spending = omega arith;
  stays_closed = λ c. refl;
}
