-- ===== src/Amount/Exact.antt =====
-- The value that `parse_dollar_amount` computes.
use mpp_movement.Prelude.{
  ℕ, zero, suc, ◌+◌, ◌-◌, ◌*◌, ◌^◌, ◌≤◌, ◌<◌, ◌≡◌, refl, true, false, not, ◌&&◌, ◌++◌, [], ◌∷◌,
  some, ok, is_empty, all, arith, length, le→leb, lt→ltb, pos→ne_zero,
}
use native.Mathlib.Nat.{pow-suc}
use mpp_movement.Text.{Text, codes, starts_with, split_once, is_ascii_digit, is_whitespace, len}
use mpp_movement.Text.Trim.{NoBlank, trim_of_NoBlank}
use mpp_movement.Text.Number.{parse_uint_of_digits, to_string, digits_value, u128_bound}
use mpp_movement.Amount.{digits_or_empty, parse_part, scale_parts, parse_dollar_amount}

amount-NoBlank :
    (whole frac : Text)
    → all is_ascii_digit whole ≡ true
    → all is_ascii_digit frac ≡ true
    → NoBlank (whole ++ b'.' ∷ frac)
unfolding is_whitespace
amount-NoBlank (c ∷ whole) frac h k =
    (ground (arith, h), amount-NoBlank whole frac (ground (arith, h)) k)
amount-NoBlank [] frac h k = (refl, digits frac k)
  where
    digits : (s : Text) → all is_ascii_digit s ≡ true → NoBlank s
    digits [] e = tt
    digits (c ∷ s) e = (ground (arith, e), digits s (ground (arith, e)))

pub split_once_of_digits :
    (whole frac : Text)
    → all is_ascii_digit whole ≡ true
    → split_once b'.' (whole ++ b'.' ∷ frac) ≡ some (whole, frac)
split_once_of_digits [] frac h = refl
split_once_of_digits (c ∷ whole) frac h = ground (arith, h, split_once_of_digits whole frac)

pub len_of_digits : (s : Text) → all is_ascii_digit s ≡ true → len s ≡ length s
len_of_digits [] h = refl
len_of_digits (c ∷ s) h = ground (arith, h, len_of_digits s)

parse_part_of_digits :
    (amount s : Text)
    → all is_ascii_digit s ≡ true
    → digits_value 0 s < 2 ^ 128
    → parse_part amount s ≡ ok (digits_value 0 s)
parse_part_of_digits amount [] h k = refl
parse_part_of_digits amount (c ∷ s) h k =
    rw (parse_uint_of_digits u128_bound (c ∷ s) (omega arith) h refl k) refl

pub pow_pos : (k : ℕ) → 0 < 10 ^ k
pow_pos zero = omega arith
pow_pos (suc k) = omega (arith, pow-suc 10 k, pow_pos k)

le_mul_pos : (a k : ℕ) → 0 < k → a ≤ a * k
le_mul_pos a k h = grind arith

-- The amount in base units: the whole part and the fraction, scaled by the token's decimals.
abbrev pub base_units : Text → Text → ℕ → ℕ
base_units whole frac decimals =
    digits_value 0 whole * 10 ^ decimals + digits_value 0 frac * 10 ^ (decimals - length frac)

digits_or_empty_of_digits : (s : Text) → all is_ascii_digit s ≡ true → digits_or_empty s ≡ true
digits_or_empty_of_digits [] h = refl
digits_or_empty_of_digits (c ∷ s) h = rw h refl

not_both_empty :
    (whole frac : Text) (d : ℕ)
    → 0 < base_units whole frac d
    → not (is_empty whole && is_empty frac) ≡ true
not_both_empty [] [] d h = absurd (omega arith)
not_both_empty [] (c ∷ frac) d h = refl
not_both_empty (c ∷ whole) frac d h = refl

scale_parts_exact :
    (amount whole frac : Text) (decimals : ℕ)
    → all is_ascii_digit whole ≡ true
    → all is_ascii_digit frac ≡ true
    → length frac ≤ decimals
    → decimals ≤ 38
    → 0 < base_units whole frac decimals
    → base_units whole frac decimals < 2 ^ 128
    → scale_parts amount decimals whole frac ≡ ok (to_string (base_units whole frac decimals))
unfolding scale_parts
scale_parts_exact amount whole frac d hw hf hl hd pos small =
    let w : ℕ = digits_value 0 whole in
    let f : ℕ = digits_value 0 frac in
    let p : ℕ = 10 ^ d in
    let q : ℕ = 10 ^ (d - length frac) in
    let wp : w ≤ w * p = le_mul_pos w p (pow_pos d) in
    let fq : f ≤ f * q = le_mul_pos f q (pow_pos (d - length frac)) in
    let first : w * p < 2 ^ 128 = omega (arith, small) in
    let second : f * q < 2 ^ 128 = omega (arith, small) in
    rw
      (
        not_both_empty whole frac d pos,
        digits_or_empty_of_digits whole hw,
        digits_or_empty_of_digits frac hf,
        len_of_digits frac hf,
        le→leb (length frac) d hl,
        parse_part_of_digits amount whole hw (omega (arith, wp, first)),
        parse_part_of_digits amount frac hf (omega (arith, fq, second)),
        le→leb d 38 hd,
        lt→ltb (w * p) (2 ^ 128) first,
        lt→ltb (f * q) (2 ^ 128) second,
        lt→ltb (w * p + f * q) (2 ^ 128) small,
        pos→ne_zero (w * p + f * q) pos,
      )
      refl

pub amount_nonempty : (whole frac : Text) → is_empty (whole ++ b'.' ∷ frac) ≡ false
amount_nonempty [] frac = refl
amount_nonempty (c ∷ whole) frac = refl

amount_unsigned :
    (whole frac : Text)
    → all is_ascii_digit whole ≡ true
    → starts_with (codes "-") (whole ++ b'.' ∷ frac) ≡ false
amount_unsigned [] frac h = refl
amount_unsigned (c ∷ whole) frac h = ground (arith, h)

-- A sum of dollars whose parts are rows of digits, with no more decimals than the token's, comes
-- out exactly: as the decimal numeral of its value in base units, where that value is positive
-- and a u128 and the token has at most 38 decimals.
pub parse_dollar_amount_exact :
    (whole frac : Text) (decimals : ℕ)
    → all is_ascii_digit whole ≡ true
    → all is_ascii_digit frac ≡ true
    → length frac ≤ decimals
    → decimals ≤ 38
    → 0 < base_units whole frac decimals
    → base_units whole frac decimals < 2 ^ 128
    → parse_dollar_amount (whole ++ b'.' ∷ frac) decimals
      ≡ ok (to_string (base_units whole frac decimals))
unfolding parse_dollar_amount
parse_dollar_amount_exact whole frac d hw hf hl hd pos small =
    rw (trim_of_NoBlank (whole ++ b'.' ∷ frac) (amount-NoBlank whole frac hw hf)) (
      rw
        (
          split_once_of_digits whole frac hw,
          scale_parts_exact (whole ++ b'.' ∷ frac) whole frac d hw hf hl hd pos small,
          amount_nonempty whole frac,
          amount_unsigned whole frac hw,
        )
        refl)
