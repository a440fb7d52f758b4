-- ===== src/Headers/Fuel.antt =====
-- src/protocol/core/headers.rs: the fuel of the loop of `parse_auth_params`.
use mpp_movement.Prelude.{
  ℕ, zero, suc, ◌≤◌, ◌<◌, ◌≡◌, refl, sym, ap, ◌∙◌, Bool, true, false, not, ◌&&◌, ◌||◌, [], ◌∷◌,
  Result, ok, err, Option, some, is_empty, ==_iff, ◌==◌, arith, Bool-cases, inl, inr, length,
}
use mpp_movement.Text.{Text, codes, is_whitespace, starts_with}
use mpp_movement.Map.{Map, insert}
use mpp_movement.Challenge.Types.{ChallengeError}
use mpp_movement.Headers.{
  quote, backslash, skip_separators, take_key, take_bare, take_quoted, take_value, contains_key,
  Rest, bad_header, round, at_token, params_loop,
}

abbrev is_separator : ℕ → Bool
is_separator c = is_whitespace c || c == b','

length-skip_separators : (s : Text) → length (skip_separators s) ≤ length s
unfolding skip_separators
length-skip_separators [] = omega arith
length-skip_separators (c ∷ s) = elim (Bool-cases (is_whitespace c || c == b',')) [
  | inl e ↦ rw (e, skip_separators) (omega (arith, length-skip_separators s))
  | inr e ↦ rw (e, skip_separators) (omega arith)
]

length-take_bare : (s : Text) → length (take_bare s).1 ≤ length s
unfolding take_bare
length-take_bare [] = omega arith
length-take_bare (c ∷ s) = elim (Bool-cases (not (is_whitespace c) && not (c == b','))) [
  | inl e ↦ rw (e, take_bare) (omega (arith, length-take_bare s))
  | inr e ↦ rw (e, take_bare) (omega arith)
]

length-take_key : (s : Text) → length (take_key s).1 ≤ length s
unfolding take_key
length-take_key [] = omega arith
length-take_key (c ∷ s) = elim (Bool-cases (not (c == b'=') && not (is_whitespace c))) [
  | inl e ↦ rw (e, take_key) (omega (arith, length-take_key s))
  | inr e ↦ rw (e, take_key) (omega arith)
]

length-take_quoted : (s : Text) → length (take_quoted s).1 ≤ length s
unfolding take_quoted
length-take_quoted [] = omega arith
length-take_quoted (c ∷ []) = elim (Bool-cases (c == quote)) [
  | inl e ↦ rw (e, take_quoted) (omega arith)
  | inr e ↦ rw (e, take_quoted) (omega arith)
]
length-take_quoted (c ∷ d ∷ s) =
    let escape = length-take_quoted s in
    let step = length-take_quoted (d ∷ s) in
    elim (Bool-cases (c == quote)) [
      | inl e ↦ rw (e, take_quoted) (omega arith)
      | inr e ↦ elim (Bool-cases (c == backslash)) [
        | inl b ↦ rw (e, take_quoted) (rw (b) (omega (arith, escape)))
        | inr b ↦ rw (e, take_quoted) (rw (b) (omega (arith, step)))
      ]
    ]

length-take_value : (s : Text) → length (take_value s).1 ≤ length s
length-take_value [] = omega arith
length-take_value (c ∷ s) = elim (Bool-cases (c == quote)) [
  | inl e ↦ rw (e, take_value) (omega (arith, length-take_quoted s))
  | inr e ↦ rw (e, take_value) (length-take_bare (c ∷ s))
]

-- How the loop runs from a text on, and what it ends with: no fuel is in it.
pub data Ends : Map Text → Text → Result ChallengeError (Map Text) → Type 0 where
  -- Nothing but separators is left.
  at_end : {params : Map Text} {s : Text} → skip_separators s ≡ [] → Ends params s (ok params)
  -- The text ends behind the equals sign.
  no_value :
      {params : Map Text} {s key : Text}
      → take_key (skip_separators s) ≡ (key, b'=' ∷ [])
      → Ends params s (ok params)
  -- The key has been there before.
  twice :
      {params : Map Text} {s key t : Text} {c : ℕ}
      → take_key (skip_separators s) ≡ (key, b'=' ∷ c ∷ t)
      → contains_key key params ≡ true
      → Ends params s (err bad_header)
  -- No equals sign behind the token: it is passed over, up to the next separator.
  no_equals :
      {params : Map Text} {s key left : Text} {r : Result ChallengeError (Map Text)}
      → is_empty (skip_separators s) ≡ false
      → take_key (skip_separators s) ≡ (key, left)
      → starts_with (codes "=") left ≡ false
      → Ends params (take_bare left).1 r
      → Ends params s r
  -- A key with its value.
  pair :
      {params : Map Text} {s key t : Text} {c : ℕ} {r : Result ChallengeError (Map Text)}
      → take_key (skip_separators s) ≡ (key, b'=' ∷ c ∷ t)
      → contains_key key params ≡ false
      → Ends (insert key (take_value (c ∷ t)).0 params) (take_value (c ∷ t)).1 r
      → Ends params s r

-- The loop comes to its end, with this result.
abbrev pub Finishes : Map Text → Text → Option (Result ChallengeError (Map Text)) → Type 0
Finishes params s o = (r : Result ChallengeError (Map Text)) × (o ≡ some r) × Ends params s r

abbrev FinishesBelow : ℕ → Rest → Type 0
FinishesBelow bound go =
    (params : Map Text) (s : Text) → length s < bound → Finishes params s (go params s)

-- At a character that is no separator, what is left behind the key is shorter, or starts with `=`.
key_progress :
    (x : ℕ) (t : Text) (c : ℕ) (s : Text)
    → is_separator x ≡ false
    → (take_key (x ∷ t)).1 ≡ c ∷ s
    → (c == b'=') ≡ false
    → length (c ∷ s) ≤ length t
unfolding take_key
key_progress x t c s sep e h = elim (Bool-cases (x == b'=')) [
  | inl eq ↦ absurd (starts x (heads (rw (eq, take_key) at e)) eq)
  | inr ne ↦
      let kept : (not (x == b'=') && not (is_whitespace x)) ≡ true = key_char x sep ne in
      let left : (take_key t).1 ≡ c ∷ s = rw (kept, take_key) at e in
      omega (arith, length-take_key t, ap (λ u. length u) left)
]
  where
    key_char :
        (x : ℕ)
        → (is_whitespace x || x == b',') ≡ false
        → (x == b'=') ≡ false
        → (not (x == b'=') && not (is_whitespace x)) ≡ true
    key_char x p q = ground (arith, p, q)

    heads : {a b : ℕ} {u v : Text} → ◌≡◌ {A = Text} (a ∷ u) (b ∷ v) → a ≡ b
    heads k = cc

    starts : (a : ℕ) → a ≡ c → (a == b'=') ≡ true → ⊥
    starts a same eq = absurd (ground (arith, same, eq, h))

starts_with-cons :
    (c : ℕ) (s : Text) → (c == b'=') ≡ false → starts_with (codes "=") (c ∷ s) ≡ false
starts_with-cons c s h = rw (h) refl

-- Behind a token, which has taken a character or has stopped at an equals sign.
token-Finishes :
    (go : Rest) (params : Map Text) (u : Text) (bound : ℕ) (p : Text × Text)
    → is_empty (skip_separators u) ≡ false
    → take_key (skip_separators u) ≡ p
    → 0 < bound
    → length p.1 ≤ bound
    → ((c : ℕ) (s : Text) → p.1 ≡ c ∷ s → (c == b'=') ≡ false → length (c ∷ s) < bound)
    → FinishesBelow bound go
    → Finishes params u (round go params p)
unfolding take_bare
token-Finishes go params u bound (key, []) filled taken some_left le more h =
    let (r, same, ends) = h params [] some_left in (r, same, no_equals filled taken refl ends)
token-Finishes go params u bound (key, c ∷ []) filled taken some_left le more h =
    elim (Bool-cases (c == b'=')) [
      | inl e ↦ (
        ok params,
        rw (e, round) refl,
        no_value (taken ∙ ap (λ y. (key, y ∷ [])) ((==_iff c b'=').0 e)),
      )
      | inr e ↦
          let (r, same, ends) =
            h params (take_bare (c ∷ [])).1
              (omega (arith, length-take_bare (c ∷ []), more c [] refl e)) in
          (r, rw (e, round) same, no_equals filled taken (starts_with-cons c [] e) ends)
    ]
token-Finishes go params u bound (key, c ∷ d ∷ s) filled taken some_left le more h =
    elim (Bool-cases (c == b'=')) [
      | inl e ↦
          let taken' = taken ∙ ap (λ y. (key, y ∷ d ∷ s)) ((==_iff c b'=').0 e) in
          elim (Bool-cases (contains_key key params)) [
            | inl k ↦ (err bad_header, rw (e, round) (rw (k) refl), twice taken' k)
            | inr k ↦
                let (r, same, ends) =
                  h (insert key (take_value (d ∷ s)).0 params) (take_value (d ∷ s)).1
                    (omega (arith, length-take_value (d ∷ s), le)) in
                (r, rw (e, round) (rw (k) same), pair taken' k ends)
          ]
      | inr e ↦
          let (r, same, ends) =
            h params (take_bare (c ∷ d ∷ s)).1
              (omega (arith, length-take_bare (c ∷ d ∷ s), more c (d ∷ s) refl e)) in
          (r, rw (e, round) same, no_equals filled taken (starts_with-cons c (d ∷ s) e) ends)
    ]

round-Finishes :
    (go : Rest) (params : Map Text) (u : Text) (x : ℕ) (t : Text)
    → skip_separators u ≡ x ∷ t
    → is_separator x ≡ false
    → FinishesBelow (length (x ∷ t)) go
    → Finishes params u (round go params (take_key (x ∷ t)))
round-Finishes go params u x t skipped sep h =
    token-Finishes go params u (length (x ∷ t)) (take_key (x ∷ t)) (rw (skipped) refl)
      (ap take_key skipped) (omega arith) (length-take_key (x ∷ t))
      (λ c s e other. omega (arith, key_progress x t c s sep e other)) h

skipped_head : (s : Text) (x : ℕ) (t : Text) → skip_separators s ≡ x ∷ t → is_separator x ≡ false
unfolding skip_separators
skipped_head [] x t e = cc
skipped_head (c ∷ s) x t e = elim (Bool-cases (is_whitespace c || c == b',')) [
  | inl sep ↦ skipped_head s x t (rw (sep, skip_separators) at e)
  | inr sep ↦
      let same = rw (sep, skip_separators) at e in
      ap (λ y. is_whitespace y || y == b',') (sym (heads same)) ∙ sep
]
  where
    heads : {a b : ℕ} {u v : Text} → ◌≡◌ {A = Text} (a ∷ u) (b ∷ v) → a ≡ b
    heads k = cc

-- With more fuel than characters the fuel does not run out: the loop gives a result, the one with which
-- a run of its rounds ends.
pub params_loop_ends :
    (fuel : ℕ) (params : Map Text) (s : Text)
    → length s < fuel
    → Finishes params s (params_loop fuel params s)
unfolding params_loop
params_loop_ends zero params s f = absurd (omega arith)
params_loop_ends (suc fuel) params s f =
    go (skip_separators s) refl
      λ r p small. params_loop_ends fuel p r (omega (arith, small, length-skip_separators s))
  where
    go :
        (u : Text)
        → skip_separators s ≡ u
        → ((r : Text) (p : Map Text)
            → length r < length (skip_separators s)
            → Finishes p r (params_loop fuel p r))
        → Finishes params s (at_token (params_loop fuel) params u)
    go [] e h = (ok params, refl, at_end e)
    go (x ∷ t) e h =
        round-Finishes (params_loop fuel) params s x t e (skipped_head s x t e)
          λ p r small. h r p (omega (arith, small, ap (λ v. length v) e))
