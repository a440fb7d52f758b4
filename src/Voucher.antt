-- ===== src/Voucher.antt =====
-- src/protocol/methods/movement/voucher.rs: BCS serialisation, signing and checking of vouchers.
-- Bytes are numbers below 256. The ed25519 and SHA3 crates are the record `Crypto`.
pub mod Encoding
pub mod Signing
pub mod Tests
use mpp_movement.Prelude.{
  ℕ, zero, suc, ◌+◌, ◌*◌, ◌/◌, ◌%◌, ◌<◌, ◌≡◌, refl, Bool, true, false, not, ◌&&◌, List, [], ◌∷◌,
  ◌++◌, Option, none, some, bit_or, arith, length, is_empty, if◌then◌else◌, ◌==◌,
}
use mpp_movement.Text.{text_eq}

abbrev pub Bytes : Type 0
Bytes = List ℕ

-- Equality of byte strings, the same walk as for texts.
abbrev pub bytes_eq : Bytes → Bytes → Bool
bytes_eq = text_eq

-- `try_into` of a byte vector to an array of n bytes.
abbrev pub to_array : ℕ → Bytes → Option Bytes
to_array n bs = if length bs == n then some bs else none

-- The crates that the code calls: ed25519-dalek and sha3.
pub record Crypto : Type 1 where
  pub VerifyingKey : Type 0
  pub SigningKey : Type 0
  -- `VerifyingKey::from_bytes`, which refuses bytes that are no point.
  pub from_bytes : Bytes → Option VerifyingKey
  pub to_bytes : VerifyingKey → Bytes
  pub verifying_key : SigningKey → VerifyingKey
  pub sign : SigningKey → Bytes → Bytes
  pub verify : VerifyingKey → Bytes → Bytes → Bool
  pub sha3_256 : Bytes → Bytes

-- The loop of `serialize_uleb128`, on fuel: the value shrinks in each round.
uleb_loop : ℕ → Bytes → ℕ → Bytes
uleb_loop zero buf value = buf
uleb_loop (suc f) buf value = elim (value / 128 == 0) [
  | true ↦ buf ++ (value % 128) ∷ []
  | false ↦ uleb_loop f (buf ++ bit_or (value % 128) 0x80 ∷ []) (value / 128)
]

unfoldable pub serialize_uleb128 : Bytes → ℕ → Bytes
unfolding uleb_loop
serialize_uleb128 buf value = uleb_loop (suc value) buf value

-- `to_le_bytes` of a number of k bytes.
unfoldable pub to_le_bytes : ℕ → ℕ → Bytes
to_le_bytes zero n = []
to_le_bytes (suc k) n = (n % 256) ∷ to_le_bytes k (n / 256)

unfoldable pub serialize_voucher : Bytes → ℕ → Bytes
serialize_voucher channel_id cumulative_amount =
    let buf = serialize_uleb128 [] (length channel_id) in
    (buf ++ channel_id) ++ to_le_bytes 8 cumulative_amount

module _ (crypto : Crypto) where
  open crypto use {VerifyingKey, SigningKey, from_bytes, verify, sign, sha3_256}

  unfoldable pub compute_channel_id : Bytes → Bytes → Bytes → Bytes → Bytes → Bytes
  compute_channel_id payer payee token salt authorized_signer_pubkey =
      sha3_256 (payer ++ (payee ++ (token ++ (salt ++ authorized_signer_pubkey))))

  unfoldable pub sign_voucher : SigningKey → Bytes → ℕ → Bytes
  sign_voucher signing_key channel_id cumulative_amount =
      sign signing_key (serialize_voucher channel_id cumulative_amount)

  verify_with : Option VerifyingKey → Bytes → Bytes → Bool
  verify_with none message signature = false
  verify_with (some key) message signature = verify key message signature

  unfoldable pub verify_voucher : Bytes → ℕ → Bytes → Bytes → Bytes → Bool
  unfolding verify_with
  verify_voucher channel_id cumulative_amount signature public_key authorized_pubkey =
      if not (is_empty authorized_pubkey) && not (bytes_eq public_key authorized_pubkey)
      then false
      else verify_with (from_bytes public_key) (serialize_voucher channel_id cumulative_amount)
          signature

voucher_bytes :
    serialize_voucher (1 ∷ 2 ∷ []) 1000 ≡ 2 ∷ 1 ∷ 2 ∷ 232 ∷ 3 ∷ 0 ∷ 0 ∷ 0 ∷ 0 ∷ 0 ∷ 0 ∷ []
unfolding serialize_voucher serialize_uleb128 to_le_bytes
voucher_bytes = refl

uleb_bytes : serialize_uleb128 [] 300 ≡ 172 ∷ 2 ∷ []
unfolding serialize_uleb128
uleb_bytes = refl
