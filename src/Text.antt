-- ===== src/Text.antt =====
-- What the code uses of Rust's `str` and `char`. A text is the list of its Unicode scalar values;
-- byte positions go through the width of each character in UTF-8.
pub mod Equality
pub mod Number
pub mod Splitting
pub mod Trim
use Prim.Native.Char.{code}
use Prim.Native.String.{String}
use mpp_movement.Prelude.{
  ℕ, zero, suc, ◌+◌, ◌-◌, ◌≡◌, refl, Bool, true, false, ◌&&◌, ◌||◌, List, [], ◌∷◌, ◌++◌, map,
  Option, none, some, ltb, leb, ◌==◌, if◌then◌else◌, all, is_empty, filter, not,
}

abbrev pub Text : Type 0
Text = List ℕ

-- The characters of a literal. `String` has its own `[]` and `∷`.
abbrev pub codes : String → Text
codes String.[] = []
codes (String.◌∷◌ c s) = code c ∷ codes s

abbrev pub text_eq : Text → Text → Bool
text_eq [] [] = true
text_eq [] (d ∷ t) = false
text_eq (c ∷ s) [] = false
text_eq (c ∷ s) (d ∷ t) = c == d && text_eq s t

abbrev pub elem : Text → List Text → Bool
elem s [] = false
elem s (t ∷ ts) = text_eq s t || elem s ts

-- `char::is_whitespace`: the White_Space property.
unfoldable pub is_whitespace : ℕ → Bool
is_whitespace c =
    (leb 9 c && leb c 13)
    || c == 32
    || c == 0x85
    || c == 0xa0
    || c == 0x1680
    || (leb 0x2000 c && leb c 0x200a)
    || c == 0x2028
    || c == 0x2029
    || c == 0x202f
    || c == 0x205f
    || c == 0x3000

abbrev pub is_ascii_lowercase : ℕ → Bool
is_ascii_lowercase c = leb 97 c && leb c 122

abbrev pub is_ascii_uppercase : ℕ → Bool
is_ascii_uppercase c = leb 65 c && leb c 90

abbrev pub is_ascii_digit : ℕ → Bool
is_ascii_digit c = leb 48 c && leb c 57

abbrev pub lower : ℕ → ℕ
lower c = if is_ascii_uppercase c then c + 32 else c

abbrev pub to_ascii_lowercase : Text → Text
to_ascii_lowercase = map lower

abbrev pub eq_ignore_ascii_case : Text → Text → Bool
eq_ignore_ascii_case s t = text_eq (to_ascii_lowercase s) (to_ascii_lowercase t)

unfoldable pub trim_start : Text → Text
trim_start [] = []
trim_start (c ∷ s) = elim (is_whitespace c) [ true ↦ trim_start s | false ↦ c ∷ s ]

abbrev pub cons_unless_blank : ℕ → Text → Text
cons_unless_blank c [] = if is_whitespace c then [] else c ∷ []
cons_unless_blank c (d ∷ s) = c ∷ d ∷ s

unfoldable pub trim_end : Text → Text
trim_end [] = []
trim_end (c ∷ s) = cons_unless_blank c (trim_end s)

unfoldable pub trim : Text → Text
unfolding trim_start trim_end
trim s = trim_end (trim_start s)

abbrev cons_unless_char : ℕ → ℕ → Text → Text
cons_unless_char x c [] = if c == x then [] else c ∷ []
cons_unless_char x c (d ∷ s) = c ∷ d ∷ s

-- `trim_end_matches(x)`.
unfoldable pub trim_end_matches : ℕ → Text → Text
trim_end_matches x [] = []
trim_end_matches x (c ∷ s) = cons_unless_char x c (trim_end_matches x s)

-- The bytes of a character in UTF-8.
abbrev pub utf8_width : ℕ → ℕ
utf8_width c = if ltb c 0x80 then 1 else if ltb c 0x800 then 2 else if ltb c 0x10000 then 3 else 4

-- `str::len`.
abbrev pub len : Text → ℕ
len [] = 0
len (c ∷ s) = utf8_width c + len s

-- `s.get(..n)` and `s.get(n..)` at once: none if `n` is past the end or inside a character.
abbrev pub cons_left : ℕ → Option (Text × Text) → Option (Text × Text)
cons_left c none = none
cons_left c (some (s, t)) = some (c ∷ s, t)

unfoldable pub split_at : ℕ → Text → Option (Text × Text)
split_at zero s = some ([], s)
split_at (suc n) [] = none
split_at (suc n) (c ∷ s) =
    if leb (utf8_width c) (suc n) then cons_left c (split_at (suc n - utf8_width c) s) else none

-- `strip_prefix`: the rest of the text behind a prefix.
abbrev pub strip_prefix : Text → Text → Option Text
strip_prefix [] s = some s
strip_prefix (d ∷ t) [] = none
strip_prefix (d ∷ t) (c ∷ s) = if c == d then strip_prefix t s else none

abbrev pub starts_with : Text → Text → Bool
starts_with [] s = true
starts_with (d ∷ t) [] = false
starts_with (d ∷ t) (c ∷ s) = c == d && starts_with t s

-- `s.contains(t)`, the needle first.
abbrev pub contains : Text → Text → Bool
contains t [] = is_empty t
contains t (c ∷ s) = starts_with t (c ∷ s) || contains t s

abbrev pub contains_char : ℕ → Text → Bool
contains_char x [] = false
contains_char x (c ∷ s) = c == x || contains_char x s

abbrev pub cons_head : ℕ → List Text → List Text
cons_head c [] = (c ∷ []) ∷ []
cons_head c (p ∷ ps) = (c ∷ p) ∷ ps

-- `split(x)`: never empty.
abbrev pub split : ℕ → Text → List Text
split x [] = [] ∷ []
split x (c ∷ s) = if c == x then [] ∷ split x s else cons_head c (split x s)

-- `split_whitespace`: the rows of characters between whitespace, none of them empty.
unfoldable pub split_blank : Text → List Text
split_blank [] = [] ∷ []
split_blank (c ∷ s) = if is_whitespace c then [] ∷ split_blank s else cons_head c (split_blank s)

unfoldable pub split_whitespace : Text → List Text
unfolding split_blank
split_whitespace s = filter (λ w. not (is_empty w)) (split_blank s)

abbrev pub cons_before : ℕ → Option (Text × Text) → Option (Text × Text)
cons_before c none = none
cons_before c (some (s, t)) = some (c ∷ s, t)

-- `split_once(x)`: the texts round the first `x`.
abbrev pub split_once : ℕ → Text → Option (Text × Text)
split_once x [] = none
split_once x (c ∷ s) = if c == x then some ([], s) else cons_before c (split_once x s)

-- `join(sep)`.
abbrev pub join : Text → List Text → Text
join sep [] = []
join sep (p ∷ []) = p
join sep (p ∷ q ∷ ps) = p ++ (sep ++ join sep (q ∷ ps))

trims : trim (codes "  a b \t") ≡ codes "a b"
unfolding trim is_whitespace
trims = refl

splits_at : split_at 2 (0xe9 ∷ codes "ab") ≡ some (0xe9 ∷ [], codes "ab")
unfolding split_at
splits_at = refl

joins : join (codes ", ") (split 47 (codes "a/b//c")) ≡ codes "a, b, , c"
joins = refl

words : split_whitespace (codes " POST  /v1 ") ≡ codes "POST" ∷ codes "/v1" ∷ []
unfolding split_whitespace is_whitespace
words = refl
