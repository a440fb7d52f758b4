-- ===== src/Headers/Params.antt =====
-- src/protocol/core/headers.rs: formatted parameters and `parse_auth_params`.
use mathlib.Core.List.{append_assoc}
use mpp_movement.Prelude.{
  some, not-eq-true, length-append, ℕ, zero, suc, ◌<◌, ◌≤◌, ◌≡◌, refl, sym, ap, ◌∙◌, Bool, true,
  false, not, ◌&&◌, ◌||◌, List, [], ◌∷◌, ◌++◌, ok, ◌==◌, is_empty, all, length, map, arith,
  Bool-cases, inl, inr, and-eq-true, subst, ==_iff,
}
use mpp_movement.Text.{Text, codes, is_whitespace, join}
use mpp_movement.Map.{Map, insert}
use mpp_movement.Headers.{
  replace, backslash, quote, skip_separators, take_key, take_quoted, cons_first, contains_key,
  params_loop, parse_auth_params, round, at_token,
}

abbrev pub escaped : Text → Text
escaped s =
    replace quote (backslash ∷ quote ∷ []) (replace backslash (backslash ∷ backslash ∷ []) s)

take_quoted_plain :
    (c : ℕ) (s : Text)
    → (c == quote) ≡ false
    → (c == backslash) ≡ false
    → take_quoted (c ∷ s) ≡ cons_first c (take_quoted s)
unfolding take_quoted
take_quoted_plain c [] q b = rw q refl
take_quoted_plain c (d ∷ s) q b = rw (q, take_quoted) (rw (b) refl)

take_quoted_escape :
    (d : ℕ) (s : Text) → take_quoted (backslash ∷ d ∷ s) ≡ cons_first d (take_quoted s)
unfolding take_quoted
take_quoted_escape d s = refl

take_quoted_end : (t : Text) → take_quoted (quote ∷ t) ≡ ([], t)
unfolding take_quoted
take_quoted_end [] = refl
take_quoted_end (c ∷ t) = refl

escaped_plain :
    (c : ℕ) (v : Text)
    → (c == quote) ≡ false
    → (c == backslash) ≡ false
    → escaped (c ∷ v) ≡ c ∷ escaped v
escaped_plain c v q b = rw (b, escaped, replace) (rw (q, replace) refl)

-- The value between the quotes is what was escaped.
take_quoted-escaped : (v t : Text) → take_quoted (escaped v ++ quote ∷ t) ≡ (v, t)
take_quoted-escaped [] t = take_quoted_end t
take_quoted-escaped (c ∷ v) t =
    let ih = take_quoted-escaped v t in
    elim (Bool-cases (c == backslash)) [
      | inl b ↦
          subst (λ d. take_quoted (escaped (d ∷ v) ++ quote ∷ t) ≡ (d ∷ v, t))
            (sym ((==_iff c backslash).0 b))
            (take_quoted_escape backslash _ ∙ ap (cons_first backslash) ih)
      | inr b ↦ elim (Bool-cases (c == quote)) [
        | inl q ↦
            subst (λ d. take_quoted (escaped (d ∷ v) ++ quote ∷ t) ≡ (d ∷ v, t))
              (sym ((==_iff c quote).0 q)) (take_quoted_escape quote _ ∙ ap (cons_first quote) ih)
        | inr q ↦
            ap (λ u. take_quoted (u ++ quote ∷ t)) (escaped_plain c v q b)
            ∙ (take_quoted_plain c _ q b ∙ ap (cons_first c) ih)
      ]
    ]

-- A key: not empty, and of no blank, comma or equals sign.
abbrev pub is_key_char : ℕ → Bool
is_key_char c = not (is_whitespace c || c == b',') && not (c == b'=')

abbrev pub is_key : Text → Bool
is_key s = not (is_empty s) && all is_key_char s

take_key_of_key :
    (key t : Text) → all is_key_char key ≡ true → take_key (key ++ b'=' ∷ t) ≡ (key, b'=' ∷ t)
unfolding take_key
take_key_of_key [] t h = refl
take_key_of_key (c ∷ key) t h =
    let (here, rest) = and-eq-true _ _ h in
    let ih = take_key_of_key key t rest in rw (key_char c here, take_key) (ap (cons_first c) ih)
  where
    key_char : (c : ℕ) → is_key_char c ≡ true → (not (c == b'=') && not (is_whitespace c)) ≡ true
    key_char c k = ground (arith, k)

skip_separators_of_key : (key t : Text) → is_key key ≡ true → skip_separators (key ++ t) ≡ key ++ t
unfolding skip_separators
skip_separators_of_key [] t h = cc
skip_separators_of_key (c ∷ key) t h = rw (first_char c key h, skip_separators) refl
  where
    first_char :
        (c : ℕ) (key : Text) → is_key (c ∷ key) ≡ true → (is_whitespace c || c == b',') ≡ false
    first_char c key k = ground (arith, k)

-- `key="value"` as it is formatted.
abbrev pub formatted : Text × Text → Text
formatted (key, value) = key ++ b'=' ∷ quote ∷ (escaped value ++ quote ∷ [])

-- The parameters in a row, separated by a comma and a blank.
abbrev pub rendered : List (Text × Text) → Text
rendered ps = join (codes ", ") (map formatted ps)

-- One round of the loop reads one parameter.
round_reads :
    (fuel : ℕ) (params : Map Text) (key value t : Text)
    → is_key key ≡ true
    → contains_key key params ≡ false
    → params_loop (suc fuel) params (key ++ b'=' ∷ quote ∷ (escaped value ++ quote ∷ t))
      ≡ params_loop fuel (insert key value params) t
unfolding params_loop
round_reads fuel params [] value t h fresh = cc
round_reads fuel params (c ∷ key) value t h fresh =
    let (_, chars) = and-eq-true (not (is_empty (c ∷ key))) (all is_key_char (c ∷ key)) h in
    ap (at_token (params_loop fuel) params) (skip_separators_of_key (c ∷ key) _ h)
    ∙ (ap (round (params_loop fuel) params) (take_key_of_key (c ∷ key) _ chars)
        ∙ rw (fresh, round)
            (ap (λ (p : Text × Text). params_loop fuel (insert (c ∷ key) p.0 params) p.1)
              (take_quoted-escaped value t)))

-- The loop passes over a comma and a blank.
separators_skipped :
    (fuel : ℕ) (params : Map Text) (t : Text)
    → params_loop (suc fuel) params (b',' ∷ 32 ∷ t) ≡ params_loop (suc fuel) params t
unfolding params_loop skip_separators is_whitespace
separators_skipped fuel params t = refl

loop_ends :
    (fuel : ℕ) (params : Map Text) → 0 < fuel → params_loop fuel params [] ≡ some (ok params)
unfolding params_loop skip_separators
loop_ends zero params h = absurd (omega arith)
loop_ends (suc fuel) params h = refl

-- Keys that differ from each other and from those before them.
abbrev pub all_fresh : Map Text → List (Text × Text) → Bool
all_fresh params [] = true
all_fresh params ((key, value) ∷ ps) =
    is_key key && (not (contains_key key params) && all_fresh (insert key value params) ps)

abbrev pub inserted : Map Text → List (Text × Text) → Map Text
inserted params [] = params
inserted params ((key, value) ∷ ps) = inserted (insert key value params) ps

formatted-append :
    (key value t : Text)
    → formatted (key, value) ++ t ≡ key ++ b'=' ∷ quote ∷ (escaped value ++ quote ∷ t)
formatted-append key value t =
    append_assoc key (b'=' ∷ quote ∷ (escaped value ++ quote ∷ [])) t
    ∙ ap (λ u. key ++ b'=' ∷ quote ∷ u) (append_assoc (escaped value) (quote ∷ []) t)

-- The loop reads every parameter of a row, on fuel for each and one round more.
loop_reads :
    (fuel : ℕ) (params : Map Text) (ps : List (Text × Text))
    → length ps < fuel
    → all_fresh params ps ≡ true
    → params_loop fuel params (rendered ps) ≡ some (ok (inserted params ps))
loop_reads fuel params [] small fresh = loop_ends fuel params (omega arith)
loop_reads zero params ((key, value) ∷ ps) small fresh = absurd (omega arith)
loop_reads (suc fuel) params ((key, value) ∷ []) small fresh =
    let (is, rest) = and-eq-true (is_key key) _ fresh in
    let (new, _) = and-eq-true (not (contains_key key params)) _ rest in
    round_reads fuel params key value [] is (not-eq-true _ new)
    ∙ loop_ends fuel (insert key value params) (omega arith)
loop_reads (suc zero) params ((key, value) ∷ p ∷ ps) small fresh = absurd (omega arith)
loop_reads (suc (suc fuel)) params ((key, value) ∷ p ∷ ps) small fresh =
    let (is, rest) = and-eq-true (is_key key) _ fresh in
    let (new, later) = and-eq-true (not (contains_key key params)) _ rest in
    ap (params_loop (suc (suc fuel)) params)
      (formatted-append key value (b',' ∷ 32 ∷ rendered (p ∷ ps)))
    ∙ (round_reads (suc fuel) params key value _ is (not-eq-true _ new)
        ∙ (separators_skipped fuel (insert key value params) (rendered (p ∷ ps))
            ∙ loop_reads (suc fuel) (insert key value params) (p ∷ ps) (omega arith) later))

length-rendered : (ps : List (Text × Text)) → length ps ≤ length (rendered ps)
length-rendered [] = omega arith
length-rendered ((key, value) ∷ []) =
    omega (arith, length-append key (b'=' ∷ quote ∷ (escaped value ++ quote ∷ [])))
length-rendered ((key, value) ∷ p ∷ ps) = omega (
  arith,
  length-append (formatted (key, value)) (b',' ∷ 32 ∷ rendered (p ∷ ps)),
  length-rendered (p ∷ ps),
  length-append key (b'=' ∷ quote ∷ (escaped value ++ quote ∷ [])),
)

-- The parameters of a formatted row, whose keys are tokens that differ from one another, are read back
-- whatever their values are, quotes and backslashes included.
pub parse_auth_params-rendered :
    (ps : List (Text × Text))
    → all_fresh [] ps ≡ true
    → parse_auth_params (rendered ps) ≡ ok (inserted [] ps)
unfolding parse_auth_params
parse_auth_params-rendered ps fresh =
    rw (loop_reads (suc (length (rendered ps))) [] ps (omega (arith, length-rendered ps)) fresh)
      refl
