-- ===== src/Prelude/Bits.antt =====
-- The bit operations that the code compares bytes with.
use Prim.Native.Nat.{bit_or, bit_xor, digits, differ, max, bit_or-bitwise, bit_xor-bitwise}
use mpp_movement.Prelude.{ℕ, zero, suc, ◌/◌, ◌%◌, ◌≤◌, ◌≡◌, refl, sym, ap, ◌∙◌, arith}

or_digit : (x y : ℕ) → max x y ≡ 0 → (x ≡ 0) × (y ≡ 0)
or_digit x y h = (omega (arith, h), omega (arith, h))

or_digits : (n a b : ℕ) → a ≤ n → digits (λ b. b) max n a b ≡ 0 → (a ≡ 0) × (b ≡ 0)
or_digits zero a b k h = (omega arith, h)
or_digits (suc n) zero b k h = (refl, h)
or_digits (suc n) (suc a) b k h =
    let high = digits (λ b. b) max n (suc a / 2) (b / 2) in
    let (first, second) = or_digit (suc a % 2) (b % 2) (omega (arith, h)) in
    let (left, right) = or_digits n (suc a / 2) (b / 2) (omega arith) (omega (arith, h)) in
    (omega (arith, first, left), omega (arith, second, right))

differ_zero : (x y : ℕ) → differ x y ≡ 0 → x ≡ y
differ_zero zero y h = sym h
differ_zero (suc x) zero h = h
differ_zero (suc x) (suc y) h = ap suc (differ_zero x y h)

xor_digits : (n a b : ℕ) → a ≤ n → digits (λ b. b) differ n a b ≡ 0 → a ≡ b
xor_digits zero a b k h = omega (arith, h)
xor_digits (suc n) zero b k h = sym h
xor_digits (suc n) (suc a) b k h =
    let low = differ_zero (suc a % 2) (b % 2) (omega (arith, h)) in
    let high = xor_digits n (suc a / 2) (b / 2) (omega arith) (omega (arith, h)) in
    omega (arith, low, high)

differ_self : (x : ℕ) → differ x x ≡ 0
differ_self zero = refl
differ_self (suc x) = differ_self x

xor_digits_self : (n a : ℕ) → a ≤ n → digits (λ b. b) differ n a a ≡ 0
xor_digits_self zero a k = omega arith
xor_digits_self (suc n) zero k = refl
xor_digits_self (suc n) (suc a) k =
    let low = differ_self (suc a % 2) in
    let high = xor_digits_self n (suc a / 2) (omega arith) in omega (arith, low, high)

or_unfold : (a b : ℕ) → bit_or a b ≡ digits (λ b. b) max a a b
or_unfold a b = λ i. bit_or-bitwise a b i

xor_unfold : (a b : ℕ) → bit_xor a b ≡ digits (λ b. b) differ a a b
xor_unfold a b = λ i. bit_xor-bitwise a b i

pub bit_or-zero : (a b : ℕ) → bit_or a b ≡ 0 → (a ≡ 0) × (b ≡ 0)
bit_or-zero a b h = or_digits a a b (omega arith) (sym (or_unfold a b) ∙ h)

pub bit_xor-zero : (a b : ℕ) → bit_xor a b ≡ 0 → a ≡ b
bit_xor-zero a b h = xor_digits a a b (omega arith) (sym (xor_unfold a b) ∙ h)

pub bit_xor_self : (a : ℕ) → bit_xor a a ≡ 0
bit_xor_self a = xor_unfold a a ∙ xor_digits_self a a (omega arith)

pub bit_or-right : (b : ℕ) → bit_or 0 b ≡ b
bit_or-right b = or_unfold 0 b
