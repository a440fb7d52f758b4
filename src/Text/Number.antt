-- ===== src/Text/Number.antt =====
-- Decimal numbers: `to_string` and `parse` of the unsigned integer types.
use mathlib.Core.List.{append-nil, append_assoc}
use mpp_movement.Prelude.{
  sym, ℕ, zero, suc, ◌+◌, ◌-◌, ◌*◌, ◌/◌, ◌%◌, ◌^◌, ◌≤◌, ◌<◌, ◌≡◌, refl, ap, ◌∙◌, inl, inr, Bool,
  true, false, ◌&&◌, [], ◌∷◌, ◌++◌, Option, none, some, arith, ltb, ◌==◌, if◌then◌else◌, Bool-cases,
  is_empty, all,
}
use mpp_movement.Text.{Text, codes, is_ascii_digit}

-- A digit at a time: an overflow or another character is an error.
unfoldable pub parse_digits : ℕ → ℕ → Text → Option ℕ
parse_digits bound acc [] = some acc
parse_digits bound acc (c ∷ s) =
    let rest = parse_digits bound (acc * 10 + (c - 48)) s in
    if is_ascii_digit c && ltb (acc * 10 + (c - 48)) bound then rest else none

-- `str::parse` of an unsigned type with `bound` values: one sign `+` is allowed.
unfoldable pub parse_uint : ℕ → Text → Option ℕ
unfolding parse_digits
parse_uint bound [] = none
parse_uint bound (c ∷ s) =
    if c == b'+'
    then (if is_empty s then none else parse_digits bound 0 s)
    else parse_digits bound 0 (c ∷ s)

abbrev pub u64_bound : ℕ
u64_bound = 2 ^ 64

abbrev pub u128_bound : ℕ
u128_bound = 2 ^ 128

abbrev pub parse_u64 : Text → Option ℕ
parse_u64 = parse_uint u64_bound

abbrev pub parse_u128 : Text → Option ℕ
parse_u128 = parse_uint u128_bound

print : ℕ → ℕ → Text
print zero n = []
print (suc f) n = elim (ltb n 10) [
  | true ↦ (48 + n) ∷ []
  | false ↦ print f (n / 10) ++ (48 + n % 10) ∷ []
]

-- `to_string` of a number. A number has at most as many digits as its value plus one.
unfoldable pub to_string : ℕ → Text
unfolding print
to_string n = print (suc n) n

-- The value of a row of digits, most significant first.
abbrev pub digits_value : ℕ → Text → ℕ
digits_value acc [] = acc
digits_value acc (c ∷ s) = digits_value (acc * 10 + (c - 48)) s

digits_value-le : (acc : ℕ) (s : Text) → acc ≤ digits_value acc s
digits_value-le acc [] = omega arith
digits_value-le acc (c ∷ s) = omega (arith, digits_value-le (acc * 10 + (c - 48)) s)

-- A row of digits is parsed to its value, or refused where the value overflows.
pub parse_digits-digits_value :
    (bound acc : ℕ) (s : Text)
    → all is_ascii_digit s ≡ true
    → acc < bound
    → parse_digits bound acc s
      ≡ (if ltb (digits_value acc s) bound then some (digits_value acc s) else none)
unfolding parse_digits
parse_digits-digits_value bound acc [] h k = ground arith
parse_digits-digits_value bound acc (c ∷ s) h k = ground (
  arith,
  parse_digits-digits_value bound (acc * 10 + (c - 48)) s,
  digits_value-le (acc * 10 + (c - 48)) s,
)

parse_digits-lt :
    (bound acc : ℕ) (s : Text) (n : ℕ) → acc < bound → parse_digits bound acc s ≡ some n → n < bound
unfolding parse_digits
parse_digits-lt bound acc [] n h e = ground arith
parse_digits-lt bound acc (c ∷ s) n h e =
    ground (arith, parse_digits-lt bound (acc * 10 + (c - 48)) s n)

-- A parsed number fits its type.
pub parse_uint-lt :
    (bound : ℕ) (s : Text) (n : ℕ) → 0 < bound → parse_uint bound s ≡ some n → n < bound
unfolding parse_uint
parse_uint-lt bound [] n h e = cc
parse_uint-lt bound (c ∷ s) n h e =
    ground (arith, parse_digits-lt bound 0 s n, parse_digits-lt bound 0 (c ∷ s) n)

digits_value-append :
    (acc : ℕ) (s : Text) (c : ℕ)
    → digits_value acc (s ++ c ∷ []) ≡ digits_value acc s * 10 + (c - 48)
digits_value-append acc [] c = refl
digits_value-append acc (d ∷ s) c = digits_value-append (acc * 10 + (d - 48)) s c

all-append : (p : ℕ → Bool) (s t : Text) → all p s ≡ true → all p t ≡ true → all p (s ++ t) ≡ true
all-append p [] t h k = k
all-append p (c ∷ s) t h k = ground (arith, all-append p s t)

print_lem :
    (f n : ℕ)
    → n < f
    → (all is_ascii_digit (print f n) ≡ true)
      × (digits_value 0 (print f n) ≡ n)
      × (is_empty (print f n) ≡ false)
unfolding print
print_lem zero n h = elim h [ ]
print_lem (suc f) n h = elim (Bool-cases (ltb n 10)) [
  | inl small ↦ rw (small, print) (ground arith, omega arith, refl)
  | inr big ↦
      let (digits, value, _) = print_lem f (n / 10) (ground arith) in
      rw (big, print)
        (
          all-append is_ascii_digit (print f (n / 10)) _ digits (ground arith),
          omega (arith, digits_value-append 0 (print f (n / 10)) (48 + n % 10)),
          is_empty-append (print f (n / 10)) _,
        )
]
  where
    is_empty-append : (s : Text) (c : ℕ) → is_empty (s ++ c ∷ []) ≡ false
    is_empty-append [] c = refl
    is_empty-append (d ∷ s) c = refl

pub parse_uint_of_digits :
    (bound : ℕ) (s : Text)
    → 0 < bound
    → all is_ascii_digit s ≡ true
    → is_empty s ≡ false
    → digits_value 0 s < bound
    → parse_uint bound s ≡ some (digits_value 0 s)
unfolding parse_uint
parse_uint_of_digits bound [] z h e k = cc
parse_uint_of_digits bound (c ∷ s) z h e k =
    ground (arith, parse_digits-digits_value bound 0 (c ∷ s) h z)

-- What is printed is parsed back, at every width.
pub parse_uint-to_string : (bound n : ℕ) → n < bound → parse_uint bound (to_string n) ≡ some n
unfolding to_string
parse_uint-to_string bound n h =
    let (digits, value, full) = print_lem (suc n) n (omega arith) in
    parse_uint_of_digits bound (print (suc n) n) (omega arith) digits full (omega arith)
    ∙ ap some value

print_fuel : (f g n : ℕ) → n < f → n < g → print f n ≡ print g n
unfolding print
print_fuel zero g n h k = elim h [ ]
print_fuel (suc f) zero n h k = elim k [ ]
print_fuel (suc f) (suc g) n h k = elim (Bool-cases (ltb n 10)) [
  | inl small ↦ rw (small, print) refl
  | inr big ↦
      rw (big, print)
        (ap (λ (t : Text). t ++ (48 + n % 10) ∷ [])
          (print_fuel f g (n / 10) (ground arith) (ground arith)))
]

-- One more digit behind a positive number.
to_string_step :
    (a c : ℕ)
    → 0 < a
    → is_ascii_digit c ≡ true
    → to_string (a * 10 + (c - 48)) ≡ to_string a ++ c ∷ []
unfolding to_string print
to_string_step a c h d =
    let n : ℕ = a * 10 + (c - 48) in
    let big : ltb n 10 ≡ false = ground arith in
    let high : n / 10 ≡ a = ground arith in
    let low : 48 + n % 10 ≡ c = ground arith in
    rw (big, print, high, low)
      (ap (λ (t : Text). t ++ c ∷ []) (print_fuel n (suc a) a (ground arith) (omega arith)))

to_string-digits_value_pos :
    (a : ℕ) (s : Text)
    → 0 < a
    → all is_ascii_digit s ≡ true
    → to_string (digits_value a s) ≡ to_string a ++ s
to_string-digits_value_pos a [] h d = sym (append-nil _)
to_string-digits_value_pos a (c ∷ s) h d =
    to_string-digits_value_pos (a * 10 + (c - 48)) s (omega arith) (ground (arith, d))
    ∙ (ap (λ (t : Text). t ++ s) (to_string_step a c h (ground (arith, d)))
        ∙ append_assoc (to_string a) (c ∷ []) s)

-- `trim_start_matches('0')`.
unfoldable pub trim_zeros : Text → Text
trim_zeros [] = []
trim_zeros (c ∷ s) = if c == b'0' then trim_zeros s else c ∷ s

abbrev pub or_zero : Text → Text
or_zero [] = codes "0"
or_zero (c ∷ s) = c ∷ s

to_string_zero : to_string 0 ≡ codes "0"
unfolding to_string
to_string_zero = refl

to_string_digit : (c : ℕ) → is_ascii_digit c ≡ true → to_string (0 * 10 + (c - 48)) ≡ c ∷ []
unfolding to_string print
to_string_digit c d =
    let e : ltb (0 * 10 + (c - 48)) 10 ≡ true = ground arith in
    let v : 48 + (0 * 10 + (c - 48)) ≡ c = ground arith in rw (e, print, v) refl

-- The numeral of a row of digits is the row without its leading zeros.
pub to_string-digits_value :
    (s : Text) → all is_ascii_digit s ≡ true → to_string (digits_value 0 s) ≡ or_zero (trim_zeros s)
unfolding trim_zeros
to_string-digits_value [] d = to_string_zero
to_string-digits_value (c ∷ s) d = elim (Bool-cases (c == b'0')) [
  | inl z ↦
      let e : 0 * 10 + (c - 48) ≡ 0 = ground arith in
      rw (z, trim_zeros, e) (to_string-digits_value s (ground (arith, d)))
  | inr nz ↦
      rw (nz, trim_zeros)
        (to_string-digits_value_pos (0 * 10 + (c - 48)) s (ground (arith, d, nz))
            (ground (arith, d))
          ∙ ap (λ (t : Text). t ++ s) (to_string_digit c (ground (arith, d))))
]

prints : to_string 40960 ≡ codes "40960"
unfolding to_string
prints = refl

parses : parse_uint 256 (codes "+255") ≡ some 255
unfolding parse_uint
parses = refl

overflows : parse_uint 256 (codes "256") ≡ none
unfolding parse_uint
overflows = refl
