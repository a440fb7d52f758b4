-- ===== src/Amount/Tests.antt =====
-- The theorems on amounts at "1.25" with six decimals.
use mpp_movement.Prelude.{◌≡◌, refl, ok, arith}
use mpp_movement.Text.{codes}
use mpp_movement.Text.Number.{to_string}
use mpp_movement.Amount.{parse_dollar_amount, parse_units}
use mpp_movement.Amount.Exact.{parse_dollar_amount_exact}
use mpp_movement.Amount.Units.{parse_units_exact}

parse_dollar_amount_exact_example : parse_dollar_amount (codes "1.25") 6 ≡ ok (to_string 1250000)
parse_dollar_amount_exact_example =
    parse_dollar_amount_exact (codes "1") (codes "25") 6 refl refl (omega arith) (omega arith)
      (omega arith) (omega arith)

parse_units_exact_example : parse_units (codes "1.25") 6 ≡ ok (to_string 1250000)
parse_units_exact_example = parse_units_exact (codes "1") (codes "25") 6 refl refl (omega arith)
