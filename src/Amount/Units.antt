-- ===== src/Amount/Units.antt =====
-- src/protocol/intents/mod.rs: `parse_units` beside `parse_dollar_amount`.
use native.Mathlib.Nat.{pow-suc}
use mpp_movement.Prelude.{
  ℕ, zero, suc, ◌+◌, ◌-◌, ◌*◌, ◌^◌, ◌≤◌, ◌<◌, ◌≡◌, refl, sym, ap, ◌∙◌, true, ◌++◌, [], ◌∷◌, ok, all,
  arith, length, le→leb,
}
use mpp_movement.Text.{Text, split, is_ascii_digit}
use mpp_movement.Text.Number.{to_string, digits_value, trim_zeros, or_zero, to_string-digits_value}
use mpp_movement.Amount.{pad_right, parse_units, parse_dollar_amount}
use mpp_movement.Amount.Exact.{
  base_units, len_of_digits, parse_dollar_amount_exact, amount_nonempty,
}

digits_value-split :
    (acc : ℕ) (s t : Text) → digits_value acc (s ++ t) ≡ digits_value (digits_value acc s) t
digits_value-split acc [] t = refl
digits_value-split acc (c ∷ s) t = digits_value-split (acc * 10 + (c - 48)) s t

ring : (a d p v : ℕ) → (a * 10 + d) * p + v ≡ a * (p * 10) + ((0 * 10 + d) * p + v)
ring a d p v = grind arith

digits_value-shift :
    (acc : ℕ) (s : Text) → digits_value acc s ≡ acc * 10 ^ length s + digits_value 0 s
digits_value-shift acc [] = omega arith
digits_value-shift acc (c ∷ s) =
    digits_value-shift (acc * 10 + (c - 48)) s
    ∙ (scaled (pow-suc 10 (length s))
        ∙ ap (λ v. acc * 10 ^ suc (length s) + v) (sym (digits_value-shift (0 * 10 + (c - 48)) s)))
  where
    regroup : (a d p q v : ℕ) → q ≡ p * 10 → (a * 10 + d) * p + v ≡ a * q + ((0 * 10 + d) * p + v)
    regroup a d p q v e = rw e (ring a d p v)

    scaled :
        10 ^ suc (length s) ≡ 10 ^ length s * 10
        → (acc * 10 + (c - 48)) * 10 ^ length s + digits_value 0 s
          ≡ acc * 10 ^ suc (length s) + ((0 * 10 + (c - 48)) * 10 ^ length s + digits_value 0 s)
    scaled = regroup acc (c - 48) (10 ^ length s) (10 ^ suc (length s)) (digits_value 0 s)

pad_zeros : (d acc : ℕ) → digits_value acc (pad_right d []) ≡ acc * 10 ^ d
unfolding pad_right
pad_zeros zero acc = omega arith
pad_zeros (suc d) acc =
    pad_zeros d (acc * 10 + 0) ∙ (regroup (10 ^ d) ∙ ap (λ p. acc * p) (sym (pow-suc 10 d)))
  where
    regroup : (p : ℕ) → (acc * 10 + 0) * p ≡ acc * (p * 10)
    regroup p = grind arith

pad_right-digits :
    (d : ℕ) (s : Text)
    → all is_ascii_digit s ≡ true
    → length s ≤ d
    → (all is_ascii_digit (pad_right d s) ≡ true)
      × (length (pad_right d s) ≡ d)
      × ((acc : ℕ) → digits_value acc (pad_right d s) ≡ digits_value acc s * 10 ^ (d - length s))
unfolding pad_right
pad_right-digits zero [] h k = (refl, refl, λ acc. omega arith)
pad_right-digits zero (c ∷ s) h k = absurd (omega arith)
pad_right-digits (suc d) [] h k =
    let (digits, size, value) = pad_right-digits d [] refl (omega arith) in
    (digits, ap suc size, λ acc. pad_zeros (suc d) acc ∙ ap (λ k. acc * 10 ^ k) (sub_zero (suc d)))
  where
    sub_zero : (n : ℕ) → n ≡ n - 0
    sub_zero n = omega arith
pad_right-digits (suc d) (c ∷ s) h k =
    let (digits, size, value) = pad_right-digits d s (ground (arith, h)) (omega arith) in
    (
      ground (arith, h, digits),
      ap suc size,
      λ acc.
          value (acc * 10 + (c - 48))
          ∙ ap (λ k. digits_value acc (c ∷ s) * 10 ^ k) (sub_suc d (length s)),
    )
  where
    sub_suc : (n k : ℕ) → n - k ≡ suc n - suc k
    sub_suc n k = omega arith

all-append :
    (s t : Text)
    → all is_ascii_digit s ≡ true
    → all is_ascii_digit t ≡ true
    → all is_ascii_digit (s ++ t) ≡ true
all-append [] t h k = k
all-append (c ∷ s) t h k = ground (arith, h, all-append s t)

split_of_digits : (s : Text) → all is_ascii_digit s ≡ true → split b'.' s ≡ s ∷ []
split_of_digits [] h = refl
split_of_digits (c ∷ s) h = ground (arith, h, split_of_digits s)

split_of_parts :
    (whole frac : Text)
    → all is_ascii_digit whole ≡ true
    → all is_ascii_digit frac ≡ true
    → split b'.' (whole ++ b'.' ∷ frac) ≡ whole ∷ frac ∷ []
split_of_parts [] frac h k = rw (split_of_digits frac k) refl
split_of_parts (c ∷ whole) frac h k = ground (arith, h, split_of_parts whole frac)

parse_units_of_parts :
    (whole frac : Text) (d : ℕ)
    → all is_ascii_digit whole ≡ true
    → all is_ascii_digit frac ≡ true
    → length frac ≤ d
    → parse_units (whole ++ b'.' ∷ frac) d ≡ ok (or_zero (trim_zeros (whole ++ pad_right d frac)))
unfolding parse_units
parse_units_of_parts whole frac d hw hf hl =
    rw
      (
        amount_nonempty whole frac,
        split_of_parts whole frac hw hf,
        len_of_digits frac hf,
        le→leb (length frac) d hl,
      )
      refl

scaled_value :
    (whole frac : Text) (d : ℕ)
    → all is_ascii_digit whole ≡ true
    → all is_ascii_digit frac ≡ true
    → length frac ≤ d
    → to_string (base_units whole frac d) ≡ or_zero (trim_zeros (whole ++ pad_right d frac))
scaled_value whole frac d hw hf hl =
    let (digits, size, scaled) = pad_right-digits d frac hf hl in
    ap to_string (
      sym (
        digits_value-split 0 whole (pad_right d frac)
        ∙ (digits_value-shift (digits_value 0 whole) (pad_right d frac)
            ∙ rw (size, scaled 0) refl)))
    ∙ to_string-digits_value (whole ++ pad_right d frac) (all-append whole _ hw digits)

-- On rows of digits with no more decimals than the token's, `parse_units` gives the decimal
-- numeral of the value in base units, of any size.
pub parse_units_exact :
    (whole frac : Text) (decimals : ℕ)
    → all is_ascii_digit whole ≡ true
    → all is_ascii_digit frac ≡ true
    → length frac ≤ decimals
    → parse_units (whole ++ b'.' ∷ frac) decimals ≡ ok (to_string (base_units whole frac decimals))
parse_units_exact whole frac d hw hf hl =
    parse_units_of_parts whole frac d hw hf hl ∙ ap ok (sym (scaled_value whole frac d hw hf hl))

-- On rows of digits with no more decimals than the token's, 38 at most, whose value in base units is
-- positive and a u128, `parse_units` and `parse_dollar_amount` give the same text.
parse_units-parse_dollar_amount :
    (whole frac : Text) (decimals : ℕ)
    → all is_ascii_digit whole ≡ true
    → all is_ascii_digit frac ≡ true
    → length frac ≤ decimals
    → decimals ≤ 38
    → 0 < base_units whole frac decimals
    → base_units whole frac decimals < 2 ^ 128
    → (t : Text) × (parse_units (whole ++ b'.' ∷ frac) decimals ≡ ok t)
      × (parse_dollar_amount (whole ++ b'.' ∷ frac) decimals ≡ ok t)
parse_units-parse_dollar_amount whole frac d hw hf hl hd pos small = (
  _,
  parse_units_exact whole frac d hw hf hl,
  parse_dollar_amount_exact whole frac d hw hf hl hd pos small,
)
