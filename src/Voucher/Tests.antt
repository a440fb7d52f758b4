-- ===== src/Voucher/Tests.antt =====
-- A small instance of the signature crates, and the theorems on vouchers at it.
use mpp_movement.Prelude.{ℕ, zero, suc, ◌+◌, ◌≡◌, refl, true, [], ◌∷◌, some, arith, get_elem?, ◌⊎◌}
use mpp_movement.Text.Equality.{text_eq_refl}
use mpp_movement.Voucher.{
  Bytes, Crypto, bytes_eq, serialize_voucher, serialize_uleb128, to_le_bytes, verify_voucher,
}
use mpp_movement.Voucher.Signing.{IsCorrect, serialize_voucher-injective, verify_voucher_sound}

abbrev pub zeros : ℕ → Bytes
zeros zero = []
zeros (suc n) = 0 ∷ zeros n

abbrev pub total : Bytes → ℕ
total [] = 0
total (b ∷ bs) = b + total bs

-- Keys are numbers; a signature adds the key to the sum of the message.
abbrev pub toy_sign : ℕ → Bytes → Bytes
toy_sign k m = (k + total m) ∷ zeros 63

abbrev pub toy_crypto : Crypto
toy_crypto = record {
  VerifyingKey = ℕ;
  SigningKey = ℕ;
  from_bytes = λ bs. get_elem? bs 0;
  to_bytes = λ k. k ∷ zeros 31;
  verifying_key = λ k. k;
  sign = toy_sign;
  verify = λ k m s. bytes_eq s (toy_sign k m);
  sha3_256 = λ bs. total bs ∷ [];
}

pub toy_crypto-IsCorrect : IsCorrect toy_crypto
toy_crypto-IsCorrect = record {
  from_bytes-to_bytes = λ k. refl;
  verify-sign = λ s m. text_eq_refl (toy_sign s m);
  length-to_bytes = λ k. refl;
  length-sign = λ s m. refl;
}

abbrev toy_id : Bytes
toy_id = 9 ∷ 8 ∷ []

serialize_voucher-injective_example : (toy_id ≡ toy_id) × (◌≡◌ {A = ℕ} 300 300)
serialize_voucher-injective_example =
    serialize_voucher-injective toy_id toy_id 300 300 (omega arith) (omega arith) refl

abbrev toy_signature : Bytes
toy_signature = toy_sign 7 (2 ∷ 9 ∷ 8 ∷ 44 ∷ 1 ∷ zeros 6)

accepted : verify_voucher toy_crypto toy_id 300 toy_signature (7 ∷ zeros 31) (7 ∷ zeros 31) ≡ true
unfolding verify_voucher serialize_voucher serialize_uleb128 to_le_bytes
accepted = refl

verify_voucher_sound_example :
    (k : ℕ) × (get_elem? (7 ∷ zeros 31) 0 ≡ some k)
    × (toy_crypto.verify k (serialize_voucher toy_id 300) toy_signature ≡ true)
    × ((◌≡◌ {A = Bytes} (7 ∷ zeros 31) []) ⊎ (◌≡◌ {A = Bytes} (7 ∷ zeros 31) (7 ∷ zeros 31)))
verify_voucher_sound_example =
    verify_voucher_sound toy_crypto toy_id 300 toy_signature (7 ∷ zeros 31) (7 ∷ zeros 31) accepted
