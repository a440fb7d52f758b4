-- ===== src/Prelude/Order.antt =====
-- A check of all values below a bound.
use mpp_movement.Prelude.{ℕ, zero, suc, ◌<◌, ◌≡◌, Bool, true, ◌&&◌, arith}

unfoldable pub tabulated : (ℕ → Bool) → ℕ → Bool
tabulated test zero = true
tabulated test (suc bound) = tabulated test bound && test bound

pub tabulated_at :
    (test : ℕ → Bool) (bound value : ℕ)
    → value < bound
    → tabulated test bound ≡ true
    → test value ≡ true
unfolding tabulated
tabulated_at test zero value small table = absurd (omega arith)
tabulated_at test (suc bound) value small table =
    ground (arith, small, table, tabulated_at test bound value)
