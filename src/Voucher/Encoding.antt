-- ===== src/Voucher/Encoding.antt =====
-- The BCS reader of the contract, and what it reads back from a serialised voucher.
use mathlib.Core.List.{append_assoc}
use native.Mathlib.Nat.{pow-suc}
use mpp_movement.Prelude.{
  ℕ, zero, suc, ◌+◌, ◌-◌, ◌*◌, ◌/◌, ◌%◌, ◌^◌, ◌<◌, ◌≡◌, inl, inr, Bool-cases, refl, ap, ◌∙◌, true,
  [], ◌∷◌, ◌++◌, Option, none, some, bit_or, arith, ltb, ◌==◌, ==_iff, if◌then◌else◌, length, take,
  drop,
}
use mpp_movement.Prelude.Order.{tabulated, tabulated_at}
use mpp_movement.Voucher.{Bytes, uleb_loop, serialize_uleb128, to_le_bytes, serialize_voucher}

-- A reader of ULEB128: the value and the bytes behind it.
abbrev add_digit : ℕ → Option (ℕ × Bytes) → Option (ℕ × Bytes)
add_digit d none = none
add_digit d (some (v, rest)) = some (d + 128 * v, rest)

unfoldable pub read_uleb128 : Bytes → Option (ℕ × Bytes)
read_uleb128 [] = none
read_uleb128 (b ∷ bs) = if ltb b 128 then some (b, bs) else add_digit (b - 128) (read_uleb128 bs)

unfoldable pub from_le_bytes : Bytes → ℕ
from_le_bytes [] = 0
from_le_bytes (b ∷ bs) = b + 256 * from_le_bytes bs

abbrev read_body : Option (ℕ × Bytes) → Option (Bytes × ℕ)
read_body none = none
read_body (some (n, rest)) = some (take n rest, from_le_bytes (drop n rest))

-- The fields of the contract's `Voucher`, read from its bytes.
unfoldable pub read_voucher : Bytes → Option (Bytes × ℕ)
read_voucher bs = read_body (read_uleb128 bs)

high_bit_table : tabulated (λ x. bit_or x 0x80 == x + 128) 128 ≡ true
unfolding tabulated
high_bit_table = refl

high_bit : (x : ℕ) → x < 128 → bit_or x 0x80 ≡ x + 128
high_bit x h = (==_iff _ _).0 (tabulated_at _ 128 x h high_bit_table)

-- The loop appends a row of bytes that the reader reads back as the value.
uleb_loop_lem :
    (f : ℕ) (buf : Bytes) (value : ℕ) (rest : Bytes)
    → value < f
    → (row : Bytes) × (uleb_loop f buf value ≡ buf ++ row)
      × (read_uleb128 (row ++ rest) ≡ some (value, rest))
unfolding uleb_loop read_uleb128
uleb_loop_lem zero buf value rest h = elim h [ ]
uleb_loop_lem (suc f) buf value rest h = elim (Bool-cases (value / 128 == 0)) [
  | inl done ↦ ((value % 128) ∷ [], rw (done, uleb_loop), ground arith)
  | inr more ↦
      let byte : ℕ = bit_or (value % 128) 0x80 in
      let ih = uleb_loop_lem f (buf ++ byte ∷ []) (value / 128) rest (ground arith) in
      let e : byte ≡ value % 128 + 128 = high_bit (value % 128) (omega arith) in
      (
        byte ∷ ih.0,
        rw (more, uleb_loop) (ih.1 ∙ append_assoc buf (byte ∷ []) ih.0),
        ground (arith, e, ih.2),
      )
]

uleb-append :
    (value : ℕ) (rest : Bytes)
    → read_uleb128 (serialize_uleb128 [] value ++ rest) ≡ some (value, rest)
unfolding serialize_uleb128
uleb-append value rest =
    let (row, e, r) = uleb_loop_lem (suc value) [] value rest (omega arith) in
    ap (λ (s : Bytes). read_uleb128 (s ++ rest)) e ∙ r

from_le_bytes-to_le_bytes : (k n : ℕ) → n < 256 ^ k → from_le_bytes (to_le_bytes k n) ≡ n
unfolding from_le_bytes to_le_bytes
from_le_bytes-to_le_bytes zero n h = omega arith
from_le_bytes-to_le_bytes (suc k) n h =
    omega (arith, from_le_bytes-to_le_bytes k (n / 256) (omega (arith, pow-suc 256 k)))

take-append : (xs ys : Bytes) → take (length xs) (xs ++ ys) ≡ xs
take-append [] ys = refl
take-append (x ∷ xs) ys = ap (◌∷◌ x) (take-append xs ys)

drop-append : (xs ys : Bytes) → drop (length xs) (xs ++ ys) ≡ ys
drop-append [] ys = refl
drop-append (x ∷ xs) ys = drop-append xs ys

pub read_voucher-serialize_voucher :
    (channel_id : Bytes) (cumulative_amount : ℕ)
    → cumulative_amount < 2 ^ 64
    → read_voucher (serialize_voucher channel_id cumulative_amount)
      ≡ some (channel_id, cumulative_amount)
unfolding read_voucher serialize_voucher
read_voucher-serialize_voucher channel_id amount h =
    ap (λ (s : Bytes). read_body (read_uleb128 s))
      (append_assoc (serialize_uleb128 [] (length channel_id)) channel_id (to_le_bytes 8 amount))
    ∙ (ap read_body (uleb-append (length channel_id) (channel_id ++ to_le_bytes 8 amount))
        ∙ cc (
          take-append channel_id (to_le_bytes 8 amount),
          drop-append channel_id (to_le_bytes 8 amount),
          from_le_bytes-to_le_bytes 8 amount (omega (arith, h)),
        ))
