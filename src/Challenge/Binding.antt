-- ===== src/Challenge/Binding.antt =====
-- src/protocol/core/challenge.rs: what the id of a challenge binds, and its verification.
use mpp_movement.Prelude.{
  ℕ, ◌+◌, ◌≡◌, refl, sym, ap, ◌∙◌, true, List, [], ◌∷◌, ◌++◌, Option, length, ==_iff, arith, ◌==◌,
  if◌then◌else◌, bit_or, bit_xor, Bool-cases, inl, inr, ◌↔◌,
}
use mpp_movement.Prelude.Bits.{bit_or-zero, bit_xor-zero, bit_xor_self, bit_or-right}
use mpp_movement.Text.{Text, codes, join, split, to_ascii_lowercase}
use mpp_movement.Challenge.{
  or_blank, hmac_input, utf8, differences, constant_time_eq, compute_challenge_id,
  with_secret_key_full, verify,
}
use mpp_movement.Challenge.Types.{Bytes, Codec, PaymentChallenge}

-- The number of bars in a text.
abbrev pub bars : Text → ℕ
bars [] = 0
bars (c ∷ s) = if c == b'|' then 1 + bars s else bars s

bars-append : (s t : Text) → bars (s ++ t) ≡ bars s + bars t
bars-append [] t = omega arith
bars-append (c ∷ s) t = ground (arith, bars-append s t)

split_last : (s : Text) → bars s ≡ 0 → split b'|' s ≡ s ∷ []
split_last [] h = refl
split_last (c ∷ s) h = ground (arith, h, split_last s)

split_first : (s t : Text) → bars s ≡ 0 → split b'|' (s ++ b'|' ∷ t) ≡ s ∷ split b'|' t
split_first [] t h = refl
split_first (c ∷ s) t h = ground (arith, h, split_first s t)

total : List Text → ℕ
total [] = 0
total (p ∷ ps) = bars p + total ps

bars-join :
    (p : Text) (ps : List Text) → bars (join (codes "|") (p ∷ ps)) ≡ total (p ∷ ps) + length ps
unfolding total
bars-join p [] = omega arith
bars-join p (q ∷ ps) =
    bars-append p (b'|' ∷ join (codes "|") (q ∷ ps)) ∙ omega (arith, bars-join q ps)

split-join :
    (p : Text) (ps : List Text)
    → total (p ∷ ps) ≡ 0
    → split b'|' (join (codes "|") (p ∷ ps)) ≡ p ∷ ps
unfolding total
split-join p [] h = split_last p (omega (arith, h))
split-join p (q ∷ ps) h =
    split_first p (join (codes "|") (q ∷ ps)) (omega (arith, h))
    ∙ ap (λ rest. p ∷ rest) (split-join q ps (omega (arith, h)))

-- Of two rows of as many fields, joined by bars, one of which has no bar in a field.
joined_fields :
    (p q : Text) (ps qs : List Text)
    → length ps ≡ length qs
    → total (p ∷ ps) ≡ 0
    → join (codes "|") (p ∷ ps) ≡ join (codes "|") (q ∷ qs)
    → ◌≡◌ {A = List Text} (p ∷ ps) (q ∷ qs)
joined_fields p q ps qs size h e =
    sym (split-join p ps h)
    ∙ (ap (split b'|') e
        ∙ split-join q qs (omega (arith, size, h, ap bars e, bars-join p ps, bars-join q qs)))

-- The seven fields under the HMAC.
abbrev pub bound_fields : PaymentChallenge → List Text
bound_fields c =
    c.realm
    ∷ c.method
    ∷ c.intent
    ∷ c.request
    ∷ or_blank c.expires
    ∷ or_blank c.digest
    ∷ or_blank c.opaque
    ∷ []

abbrev pub hmac_input_of : PaymentChallenge → Text
hmac_input_of c = hmac_input c.realm c.method c.intent c.request c.expires c.digest c.opaque

-- Where no field of one challenge has a bar in it, another challenge with the same text under the
-- HMAC has the same seven fields: the other's fields need not be free of bars. An absent field
-- counts as an empty one.
pub hmac_input_binds :
    (c other : PaymentChallenge)
    → bars c.realm ≡ 0
    → bars c.method ≡ 0
    → bars c.intent ≡ 0
    → bars c.request ≡ 0
    → bars (or_blank c.expires) ≡ 0
    → bars (or_blank c.digest) ≡ 0
    → bars (or_blank c.opaque) ≡ 0
    → hmac_input_of c ≡ hmac_input_of other
    → bound_fields c ≡ bound_fields other
unfolding hmac_input total
hmac_input_binds c other r m i q e d o same =
    joined_fields c.realm other.realm _ _ refl (omega (arith, r, m, i, q, e, d, o)) same

differ_step : (r x y : ℕ) → (bit_or r (bit_xor x y) ≡ 0) ↔ ((r ≡ 0) × (x ≡ y))
differ_step r x y = (forth, back)
  where
    forth : bit_or r (bit_xor x y) ≡ 0 → (r ≡ 0) × (x ≡ y)
    forth e =
        let (start, differ) = bit_or-zero r (bit_xor x y) e in (start, bit_xor-zero x y differ)

    back : (r ≡ 0) × (x ≡ y) → bit_or r (bit_xor x y) ≡ 0
    back (start, same) = cc (start, same, bit_xor_self x, bit_or-right 0)

-- The loop of the comparison ends at 0 just where it started at 0 and met no difference.
differences_iff :
    (r : ℕ) (xs ys : Bytes)
    → length xs ≡ length ys
    → (differences r xs ys ≡ 0) ↔ ((r ≡ 0) × (xs ≡ ys))
unfolding differences
differences_iff r [] [] h = (λ e. (e, refl), λ e. e.0)
differences_iff r [] (y ∷ ys) h = absurd (omega (arith, h))
differences_iff r (x ∷ xs) [] h = absurd (omega (arith, h))
differences_iff r (x ∷ xs) (y ∷ ys) h =
    let (fro, to) = differences_iff (bit_or r (bit_xor x y)) xs ys (omega (arith, h)) in
    let (split, join) = differ_step r x y in
    (
      λ e. ((split (fro e).0).0, cc ((split (fro e).0).1, (fro e).1)),
      λ e. to (join (e.0, cc (e.1)), cc (e.1)),
    )

-- The constant-time comparison is equality of the texts' bytes.
pub constant_time_eq_iff : (a b : Text) → (constant_time_eq a b ≡ true) ↔ (utf8 a ≡ utf8 b)
unfolding constant_time_eq
constant_time_eq_iff a b = elim (Bool-cases (length (utf8 a) == length (utf8 b))) [
  | inl e ↦
      let (fro, to) = differences_iff 0 (utf8 a) (utf8 b) ((==_iff _ _).0 e) in
      (λ h. (fro (ground (arith, e, h))).1, λ same. ground (arith, e, to (refl, same)))
  | inr e ↦ (
    λ h. absurd (ground (arith, e, h)),
    λ same. absurd (ground (arith, e, ap (λ s. length s) same)),
  )
]

module _ (codec : Codec) where
  -- A challenge that `with_secret_key_full` issues verifies under the same key, and it keeps the
  -- realm, the request and the optional fields that it was given.
  verify-with_secret_key_full :
      (secret realm method intent request : Text) (expires digest description opaque : Option Text)
      → let c =
          with_secret_key_full codec secret realm method intent request expires digest description
            opaque in
        (verify codec c secret ≡ true)
        × (bound_fields c
            ≡ realm
              ∷ to_ascii_lowercase method
              ∷ to_ascii_lowercase intent
              ∷ request
              ∷ or_blank expires
              ∷ or_blank digest
              ∷ or_blank opaque
              ∷ [])
  unfolding verify with_secret_key_full
  verify-with_secret_key_full secret realm method intent request expires digest description opaque =
      ((constant_time_eq_iff _ _).1 refl, refl)

  -- A challenge that verifies carries, byte for byte, the id that the key gives to its fields.
  pub verify_sound :
      (c : PaymentChallenge) (secret : Text)
      → verify codec c secret ≡ true
      → utf8 c.id
        ≡ utf8 (
            compute_challenge_id codec secret c.realm c.method c.intent c.request c.expires c.digest
              c.opaque)
  unfolding verify
  verify_sound c secret h = (constant_time_eq_iff _ _).0 h
