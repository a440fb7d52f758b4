-- ===== src/Charge/Evidence.antt =====
-- src/protocol/methods/movement/method.rs: what an event or a payload that passes is evidence of.
use mpp_movement.Prelude.{
  or_else, and_then, ℕ, ◌<◌, ◌≡◌, refl, ap, ◌∙◌, Bool, ◌⊎◌, inl, inr, true, false, not, ◌&&◌, ◌||◌,
  List, [], Option, none, some, ok, ◌>>◌, bind-eq-ok, require-eq-ok, ok_or-eq-ok, Bool-cases,
  Option-cases, ==_iff, length, ltb→lt, and-eq-true, or-eq-true, arith,
}
use mpp_movement.Text.{Text, codes, text_eq, contains}
use mpp_movement.Text.Equality.{text_eq_sound}
use mpp_movement.Text.Number.{parse_u64}
use mpp_movement.Json
use mpp_movement.Json.{Json, as_bool, as_str, as_u64}
use mpp_movement.Session.State.{Outcome}
use mpp_movement.Charge.{
  text_at, array_at, function_of, fa_transfer, move_transfer, coins_transfer, coin_transfer,
  is_coin_function, same_number, parse_event_amount, same_address, is_at, matches_event, event_pays,
  is_fa_transfer, is_deposit, normalize_address, argument, argument_places, metadata_fits,
  verify_payload_fallback,
}

module _ (to_lowercase : Text → Text) where
  -- An address that is the recipient's once both are normalized.
  abbrev pub Reaches : Option Text → Text → Type 0
  Reaches o recipient =
      (a : Text) × (o ≡ some a)
      × (normalize_address to_lowercase a ≡ normalize_address to_lowercase recipient)

  -- The amount of an event's data, as a number or as decimal text.
  abbrev pub Amounts : Json → ℕ → Type 0
  Amounts data_field amount =
      (and_then (Json.get (codes "amount") data_field) as_u64 ≡ some amount)
      ⊎ (and_then (and_then (Json.get (codes "amount") data_field) as_str) parse_u64 ≡ some amount)

  -- A transfer event with the recipient in its data, or a deposit event of another kind with the
  -- recipient as the account of its guid or as its key; its data has the amount.
  pub record IsDeposit (recipient : Text) (amount : ℕ) (event : Json) : Type 0 where
    pub event_type : Text
    pub typed : and_then (Json.get (codes "type") event) as_str ≡ some event_type
    pub data_field : Json
    pub found : Json.get (codes "data") event ≡ some data_field
    pub amounts : Amounts data_field amount
    pub reaches :
        ((contains (codes "::fungible_asset::Transfer") event_type ≡ true)
          × Reaches (and_then (Json.get (codes "to") data_field) as_str) recipient)
        ⊎ (((contains (codes "::coin::DepositEvent") event_type ≡ true)
              ⊎ (contains (codes "::fungible_asset::Deposit") event_type ≡ true))
            × (Reaches
                  (and_then
                    (Json.get (codes "guid") event)
                    (λ guid. and_then (Json.get (codes "account_address") guid) as_str))
                  recipient
                ⊎ Reaches (and_then (Json.get (codes "key") event) as_str) recipient))

  -- A payload of a known transfer with the recipient and the amount at their places.
  pub record IsTransfer (tx : Json) (recipient : Text) (amount : ℕ) : Type 0 where
    pub payload : Json
    pub arguments : List Json
    pub places : ℕ × ℕ
    pub has_payload : Json.get (codes "payload") tx ≡ some payload
    pub has_arguments : array_at (codes "arguments") payload ≡ some arguments
    pub known :
        ((places ≡ (0, 1))
          × ((function_of payload ≡ move_transfer)
              ⊎ ((function_of payload ≡ coins_transfer) ⊎ (function_of payload ≡ coin_transfer))))
        ⊎ ((places ≡ (1, 2)) × (function_of payload ≡ fa_transfer))
    pub enough : places.1 < length arguments
    pub to_recipient :
        normalize_address to_lowercase (or_else (argument places.0 arguments) [])
        ≡ normalize_address to_lowercase recipient
    pub of_amount : or_else (and_then (argument places.1 arguments) parse_u64) 0 ≡ amount

  same_number-eq : (o : Option ℕ) (n : ℕ) → same_number o n ≡ true → o ≡ some n
  same_number-eq none n h = cc
  same_number-eq (some m) n h = ap some ((==_iff m n).0 h)

  is_at_sound :
      (o : Option Text) (recipient : Text)
      → is_at to_lowercase o recipient ≡ true
      → Reaches o recipient
  unfolding same_address
  is_at_sound none recipient h = cc
  is_at_sound (some a) recipient h = (a, refl, text_eq_sound _ _ h)

  event_amount_sound :
      (data_field : Json) (amount : ℕ)
      → parse_event_amount data_field ≡ some amount
      → Amounts data_field amount
  unfolding parse_event_amount
  event_amount_sound data_field amount h =
      elim (Option-cases (and_then (Json.get (codes "amount") data_field) as_u64)) [
        | inl e ↦ inr (rw (e, parse_event_amount) at h)
        | inr (n, e) ↦ inl (e ∙ (rw (e, parse_event_amount) at h))
      ]

  -- A type that is there, where its text passes a test that the empty text does not.
  typed_sound :
      (o : Option Text)
      → (not (is_deposit (or_else o [])) && not (is_fa_transfer (or_else o []))) ≡ false
      → (t : Text) × (o ≡ some t) × ((not (is_deposit t) && not (is_fa_transfer t)) ≡ false)
  typed_sound none h = cc
  typed_sound (some t) h = (t, refl, h)

  event-IsDeposit :
      (event_type recipient : Text) (amount : ℕ) (event data_field : Json)
      → text_at (codes "type") event ≡ some event_type
      → (not (is_deposit event_type) && not (is_fa_transfer event_type)) ≡ false
      → Json.get (codes "data") event ≡ some data_field
      → event_pays to_lowercase recipient amount event data_field ≡ true
      → IsDeposit recipient amount event
  event-IsDeposit event_type recipient amount event data_field typed kind found h =
      let (named, paid) = and-eq-true _ _ (rw (typed) at h) in
      record {
        event_type = event_type;
        typed = typed;
        data_field = data_field;
        found = found;
        amounts = event_amount_sound data_field amount (same_number-eq _ amount named);
        reaches = elim (Bool-cases (is_fa_transfer event_type)) [
          | inl e ↦ inl (e, is_at_sound _ recipient (rw e at paid))
          | inr e ↦ inr (
            or-eq-true _ _ (deposits (is_deposit event_type) _ kind e),
            elim (or-eq-true _ _ (rw e at paid)) [
              | inl at_guid ↦ inl (is_at_sound _ recipient at_guid)
              | inr at_key ↦ inr (is_at_sound _ recipient at_key)
            ],
          )
        ];
      }
    where
      deposits : (d f : Bool) → (not d && not f) ≡ false → f ≡ false → d ≡ true
      deposits true f h e = refl
      deposits false f h e = cc

  pub matches_event_sound :
      (recipient : Text) (amount : ℕ) (event : Json)
      → matches_event to_lowercase recipient amount event ≡ true
      → IsDeposit recipient amount event
  unfolding matches_event
  matches_event_sound recipient amount event h =
      let event_type = or_else (text_at (codes "type") event) [] in
      elim (Bool-cases (not (is_deposit event_type) && not (is_fa_transfer event_type))) [
        | inl other ↦ absurd (ground (arith, h, other))
        | inr kind ↦ elim (Option-cases (Json.get (codes "data") event)) [
          | inl e ↦ absurd (ground (arith, h, kind, e))
          | inr (data_field, e) ↦
              let (t, typed, kept) = typed_sound (text_at (codes "type") event) kind in
              event-IsDeposit t recipient amount event data_field typed kept e
                (ground (arith, h, kind, e))
        ]
      ]

  places_sound :
      (function : Text) (arguments : List Json) (currency : Text) (places : ℕ × ℕ)
      → argument_places to_lowercase function arguments currency ≡ ok places
      → ((places ≡ (0, 1))
          × ((function ≡ move_transfer)
              ⊎ ((function ≡ coins_transfer) ⊎ (function ≡ coin_transfer))))
        ⊎ ((places ≡ (1, 2)) × (function ≡ fa_transfer))
  unfolding argument_places
  places_sound function arguments currency places h =
      elim (Bool-cases (text_eq function move_transfer || is_coin_function function)) [
        | inl e ↦ inl (
          ground (arith, h, e),
          elim (or-eq-true _ _ e) [
            | inl m ↦ inl (text_eq_sound _ _ m)
            | inr c ↦ inr (elim (or-eq-true _ _ c) [
              | inl cs ↦ inl (text_eq_sound _ _ cs)
              | inr co ↦ inr (text_eq_sound _ _ co)
            ])
          ],
        )
        | inr e ↦ elim (Bool-cases (text_eq function fa_transfer)) [
          | inl f ↦
              let reduced : ◌≡◌ {A = Outcome (ℕ × ℕ)}
                  (metadata_fits to_lowercase (some arguments) currency >> ok (1, 2)) (ok places) =
                rw (e, f) at h in
              let (_, _, last) =
                bind-eq-ok (metadata_fits to_lowercase (some arguments) currency) (λ _. ok (1, 2))
                  reduced in
              inr (cc (last), text_eq_sound _ _ f)
          | inr f ↦ absurd (ground (arith, h, e, f))
        ]
      ]

  pub fallback_sound :
      (tx : Json) (currency recipient : Text) (amount : ℕ)
      → verify_payload_fallback to_lowercase tx currency recipient amount ≡ ok tt
      → IsTransfer tx recipient amount
  unfolding verify_payload_fallback same_address
  fallback_sound tx currency recipient amount h =
      let (payload, p, h1) = bind-eq-ok _ _ h in
      let (arguments, a, h2) = bind-eq-ok _ _ h1 in
      let (places, q, h3) = bind-eq-ok _ _ h2 in
      let (_, b, h4) = bind-eq-ok _ _ h3 in
      let (_, r, h5) = bind-eq-ok _ _ h4 in
      let (_, v, _) = bind-eq-ok _ _ h5 in
      record {
        payload = payload;
        arguments = arguments;
        places = places;
        has_payload = ok_or-eq-ok _ _ p;
        has_arguments = ok_or-eq-ok _ _ a;
        known = places_sound _ arguments currency places q;
        enough = ltb→lt _ _ (require-eq-ok _ _ b);
        to_recipient = text_eq_sound _ _ (require-eq-ok _ _ r);
        of_amount = (==_iff _ _).0 (require-eq-ok _ _ v);
      }
