-- ===== src/Text/Trim.antt =====
-- `trim` on texts that have nothing to trim.
use mpp_movement.Prelude.{◌≡◌, refl, ap, ◌∙◌, false, [], ◌∷◌, ◌++◌, All, arith, is_empty}
use mpp_movement.Text.{Text, trim, trim_start, trim_end, is_whitespace, cons_unless_blank}

-- A text without white space.
abbrev pub NoBlank : Text → Type 0
NoBlank = All (λ c. is_whitespace c ≡ false)

trim_start_of_NoBlank : (s : Text) → NoBlank s → trim_start s ≡ s
unfolding trim_start
trim_start_of_NoBlank [] h = refl
trim_start_of_NoBlank (c ∷ s) h = rw (h.0, trim_start) refl

pub trim_end_of_NoBlank : (s : Text) → NoBlank s → trim_end s ≡ s
unfolding trim_end
trim_end_of_NoBlank [] h = refl
trim_end_of_NoBlank (c ∷ []) h = ground (arith, h.0)
trim_end_of_NoBlank (c ∷ d ∷ s) h = rw (trim_end_of_NoBlank (d ∷ s) h.1) refl

pub trim_of_NoBlank : (s : Text) → NoBlank s → trim s ≡ s
unfolding trim
trim_of_NoBlank s h = ap trim_end (trim_start_of_NoBlank s h) ∙ trim_end_of_NoBlank s h

pub trim_end-append :
    (s t : Text) → is_empty t ≡ false → trim_end t ≡ t → trim_end (s ++ t) ≡ s ++ t
unfolding trim_end
trim_end-append [] t h e = e
trim_end-append (c ∷ s) t h e = ap (cons_unless_blank c) (trim_end-append s t h e) ∙ kept s t h
  where
    kept : (s t : Text) → is_empty t ≡ false → cons_unless_blank c (s ++ t) ≡ c ∷ (s ++ t)
    kept [] [] k = cc
    kept [] (d ∷ t) k = refl
    kept (d ∷ s) t k = refl
