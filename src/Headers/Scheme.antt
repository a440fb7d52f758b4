-- ===== src/Headers/Scheme.antt =====
-- src/protocol/core/headers.rs: what `extract_payment_scheme` takes out of a header.
use mpp_movement.Prelude.{
  ℕ, zero, suc, ◌-◌, ◌≡◌, refl, sym, ap, ◌∙◌, Bool-cases, inl, inr, true, false, Bool, List, [],
  ◌∷◌, ◌++◌, Option, none, some, Any, All, find, map, leb, if◌then◌else◌, arith, ◌<◌, length,
}
use mpp_movement.Text.{
  Text, codes, trim, split, split_at, eq_ignore_ascii_case, utf8_width, cons_left, lower,
  to_ascii_lowercase,
}
use mpp_movement.Text.Equality.{text_eq_sound}
use mpp_movement.Headers.{extract_payment_scheme, is_payment, rest_behind}

-- A piece of the header between commas, without the blanks round it, that starts with the scheme.
pub record IsOfScheme (header credential : Text) : Type 0 where
  pub listed : Any (λ piece. trim piece ≡ credential) (split b',' header)
  pub scheme : Text
  pub token : Text
  pub parts : scheme ++ token ≡ credential
  pub named : eq_ignore_ascii_case scheme (codes "payment ") ≡ true

find-map_sound :
    {A B : Type 0} (p : B → Bool) (f : A → B) (xs : List A) (y : B)
    → find p (map f xs) ≡ some y
    → (p y ≡ true) × Any (λ x. f x ≡ y) xs
find-map_sound p f [] y e = absurd (cc)
find-map_sound p f (x ∷ xs) y e = elim (Bool-cases (p (f x))) [
  | inl holds ↦ let same : f x ≡ y = ground (arith, e, holds) in (ap p (sym same) ∙ holds, inl same)
  | inr fails ↦
      let (holds, found) = find-map_sound p f xs y (ground (arith, e, fails)) in (holds, inr found)
]

abbrev glued : Option (Text × Text) → Text
glued none = []
glued (some (a, b)) = a ++ b

append-split_at : (n : ℕ) (s a b : Text) → split_at n s ≡ some (a, b) → a ++ b ≡ s
unfolding split_at
append-split_at zero s a b h = sym (ap glued h)
append-split_at (suc n) [] a b h = cc
append-split_at (suc n) (c ∷ s) a b h =
    let again = append-split_at (suc n - utf8_width c) s in
    go (leb (utf8_width c) (suc n)) (split_at (suc n - utf8_width c) s) again h
  where
    go :
        (fits : Bool) (o : Option (Text × Text))
        → ((a' b' : Text) → o ≡ some (a', b') → a' ++ b' ≡ s)
        → (if fits then cons_left c o else none) ≡ some (a, b)
        → a ++ b ≡ c ∷ s
    go false o again k = cc
    go true none again k = cc
    go true (some (a', b')) again k = sym (ap glued k) ∙ ap (λ t. c ∷ t) (again a' b' refl)

is_payment_sound :
    (s : Text) (o : Option (Text × Text))
    → split_at 8 s ≡ o
    → elim (rest_behind (codes "payment ") o) [ none ↦ false | some t ↦ true ] ≡ true
    → (scheme : Text) × (token : Text) × (scheme ++ token ≡ s)
      × (eq_ignore_ascii_case scheme (codes "payment ") ≡ true)
is_payment_sound s none e h = cc
is_payment_sound s (some (a, b)) e h =
    elim (Bool-cases (eq_ignore_ascii_case a (codes "payment "))) [
      | inl named ↦ (a, b, append-split_at 8 s a b e, named)
      | inr other ↦ absurd (ground (arith, h, other))
    ]

-- What is taken out is a piece of the scheme `Payment`.
pub extract_payment_scheme_sound :
    (header credential : Text)
    → extract_payment_scheme header ≡ some credential
    → IsOfScheme header credential
unfolding extract_payment_scheme
extract_payment_scheme_sound header credential h =
    let (payment, listed) = find-map_sound is_payment trim (split b',' header) credential h in
    let (scheme, token, parts, named) = is_payment_sound credential _ refl payment in
    record { listed = listed; scheme = scheme; token = token; parts = parts; named = named }

-- A first character of one byte.
narrow_first :
    (n c : ℕ) (s : Text) → utf8_width c ≡ 1 → split_at (suc n) (c ∷ s) ≡ cons_left c (split_at n s)
unfolding split_at
narrow_first n c s one =
    let left : suc n - 1 ≡ n = omega arith in
    let fits : leb 1 (suc n) ≡ true = ground arith in
    rw (one) (rw (fits) (ap (λ m. cons_left c (split_at m s)) left))

-- The first bytes of a text that starts with characters of one byte.
split_at-append :
    (s t : Text) → All (λ c. utf8_width c ≡ 1) s → split_at (length s) (s ++ t) ≡ some (s, t)
unfolding split_at
split_at-append [] t h = refl
split_at-append (c ∷ s) t (one, h) =
    narrow_first (length s) c (s ++ t) one ∙ ap (cons_left c) (split_at-append s t h)

lower_narrow : (c d : ℕ) → lower c ≡ d → d < 0x80 → utf8_width c ≡ 1
lower_narrow c d h small = ground (arith, h, small)

-- A text that is an ASCII text but for its case has the length of that, and characters of one byte.
named_narrow :
    (s t : Text)
    → to_ascii_lowercase s ≡ t
    → All (λ c. c < 0x80) t
    → (length s ≡ length t) × All (λ c. utf8_width c ≡ 1) s
named_narrow [] [] h narrow = (refl, tt)
named_narrow [] (d ∷ t) h narrow = cc
named_narrow (c ∷ s) [] h narrow = cc
named_narrow (c ∷ s) (d ∷ t) h (small, narrow) =
    let (same, widths) = named_narrow s t (cc) narrow in
    (ap suc same, (lower_narrow c d (cc) small, widths))

is_payment_complete :
    (scheme token : Text)
    → eq_ignore_ascii_case scheme (codes "payment ") ≡ true
    → is_payment (scheme ++ token) ≡ true
is_payment_complete scheme token named =
    let (eight, widths) = named_narrow scheme (codes "payment ") (text_eq_sound _ _ named) (
      omega arith,
      (
        omega arith,
        (
          omega arith,
          (omega arith, (omega arith, (omega arith, (omega arith, (omega arith, tt))))),
        ),
      ),
    ) in
    let split : split_at 8 (scheme ++ token) ≡ some (scheme, token) =
      ap (λ n. split_at n (scheme ++ token)) (sym eight) ∙ split_at-append scheme token widths in
    rw (split, is_payment) (rw (named) refl)

find-map-none :
    {A B : Type 0} (p : B → Bool) (f : A → B) (xs : List A)
    → find p (map f xs) ≡ none
    → All (λ x. p (f x) ≡ false) xs
find-map-none p f [] e = tt
find-map-none p f (x ∷ xs) e = elim (Bool-cases (p (f x))) [
  | inl holds ↦ absurd (ground (arith, e, holds))
  | inr fails ↦ (fails, find-map-none p f xs (ground (arith, e, fails)))
]

All-Any :
    {A : Type 0} {P Q : A → Type 0} (xs : List A)
    → All P xs
    → Any Q xs
    → ((x : A) → P x → Q x → ⊥)
    → ⊥
All-Any [] ps qs apart = qs
All-Any (x ∷ xs) (p, ps) (inl q) apart = apart x p q
All-Any (x ∷ xs) (p, ps) (inr qs) apart = All-Any xs ps qs apart

-- Where nothing is taken out, no piece is of the scheme.
pub extract_payment_scheme-none :
    (header credential : Text)
    → extract_payment_scheme header ≡ none
    → ¬ IsOfScheme header credential
unfolding extract_payment_scheme
extract_payment_scheme-none header credential h of_scheme =
    All-Any (split b',' header) (find-map-none is_payment trim (split b',' header) h)
      of_scheme.listed
      λ piece unlike same. absurd (
        ground (
          arith,
          unlike,
          ap is_payment (of_scheme.parts ∙ sym same),
          is_payment_complete of_scheme.scheme of_scheme.token of_scheme.named,
        ))
