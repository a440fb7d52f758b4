-- ===== src/Amount.antt =====
-- src/server/amount.rs and the `parse_units` of src/protocol/intents/mod.rs: from dollars to base units.
pub mod Exact
pub mod Units
mod Tests
use mpp_movement.Prelude.{
  ℕ, zero, suc, ◌+◌, ◌-◌, ◌*◌, ◌^◌, ◌≡◌, refl, Bool, true, false, not, ◌&&◌, ◌||◌, ◌++◌, List, [],
  ◌∷◌, Option, none, some, Result, ok, err, ◌>>=◌, ◌>>◌, require, ok_or, leb, ltb, ◌==◌,
  if◌then◌else◌, is_empty, all,
}
use mpp_movement.Text.{Text, codes, trim, starts_with, split, split_once, is_ascii_digit, len}
use mpp_movement.Text.Number.{parse_u128, to_string, trim_zeros, or_zero}

pub data AmountError : Type 0 where
  empty : AmountError
  invalid_format : Text → AmountError
  too_many_decimals : (given max : ℕ) → AmountError
  zero_or_negative : AmountError
  overflow : AmountError

-- The parts round the first dot; a text with no dot has no fraction.
abbrev pub parts_of : Text → Option (Text × Text) → Text × Text
parts_of amount none = (amount, [])
parts_of amount (some (int, frac)) = (int, frac)

abbrev pub digits_or_empty : Text → Bool
digits_or_empty s = is_empty s || all is_ascii_digit s

-- An absent part counts as 0.
abbrev pub parse_part : Text → Text → Result AmountError ℕ
parse_part amount s = if is_empty s then ok 0 else ok_or (parse_u128 s) (invalid_format amount)

-- `checked_mul` and `checked_add` of a u128.
abbrev pub checked : ℕ → Result AmountError ℕ
checked n = if ltb n (2 ^ 128) then ok n else err overflow

-- The checks on the two parts, and their sum in base units.
unfoldable pub scale_parts : Text → ℕ → Text → Text → Result AmountError Text
scale_parts amount decimals integer_part frac_part = do
  require (not (is_empty integer_part && is_empty frac_part)) (invalid_format amount)
  require (digits_or_empty integer_part) (invalid_format amount)
  require (digits_or_empty frac_part) (invalid_format amount)
  let frac_len = len frac_part
  require (leb frac_len decimals) (too_many_decimals frac_len decimals)
  int_val ← parse_part amount integer_part
  frac_val ← parse_part amount frac_part
  require (leb decimals 38) overflow
  let scale = 10 ^ decimals
  let frac_scale = 10 ^ (decimals - frac_len)
  whole ← checked (int_val * scale)
  fraction ← checked (frac_val * frac_scale)
  base_units ← checked (whole + fraction)
  require (not (base_units == 0)) zero_or_negative
  ok (to_string base_units)

unfoldable pub parse_dollar_amount : Text → ℕ → Result AmountError Text
parse_dollar_amount amount_str decimals = do
  let amount = trim amount_str
  require (not (is_empty amount)) empty
  require (not (starts_with (codes "-") amount)) zero_or_negative
  let parts = parts_of amount (split_once b'.' amount)
  scale_parts amount decimals parts.0 parts.1

-- `format!("{:0<width$}")`: zeros on the right up to the width, in characters.
unfoldable pub pad_right : ℕ → Text → Text
pad_right zero s = s
pad_right (suc n) [] = b'0' ∷ pad_right n []
pad_right (suc n) (c ∷ s) = c ∷ pad_right n s

-- Of an `MppError::InvalidAmount` its message is left out.
pub data UnitsError : Type 0 where
  invalid_amount : UnitsError

abbrev pub units_of : ℕ → List Text → Result UnitsError Text
units_of decimals (integer_part ∷ []) =
    ok (or_zero (trim_zeros (integer_part ++ pad_right decimals [])))
units_of decimals (integer_part ∷ fraction_part ∷ []) =
    if leb (len fraction_part) decimals
    then ok (or_zero (trim_zeros (integer_part ++ pad_right decimals fraction_part)))
    else err invalid_amount
units_of decimals _ = err invalid_amount

unfoldable pub parse_units : Text → ℕ → Result UnitsError Text
parse_units amount decimals =
    if is_empty amount then err invalid_amount else units_of decimals (split b'.' amount)
