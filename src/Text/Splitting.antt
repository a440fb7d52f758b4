-- ===== src/Text/Splitting.antt =====
-- `split` on texts without the separator and on texts around it.
use mpp_movement.Prelude.{ℕ, ◌≡◌, refl, false, [], ◌∷◌, ◌++◌, arith, ==_refl}
use mpp_movement.Text.{Text, split, contains_char}

pub split-append :
    (x : ℕ) (s t : Text) → contains_char x s ≡ false → split x (s ++ x ∷ t) ≡ s ∷ split x t
split-append x [] t h = ground (arith, ==_refl x)
split-append x (c ∷ s) t h = ground (arith, h, split-append x s t)

pub split_of_one : (x : ℕ) (s : Text) → contains_char x s ≡ false → split x s ≡ s ∷ []
split_of_one x [] h = refl
split_of_one x (c ∷ s) h = ground (arith, h, split_of_one x s)
