-- ===== src/Voucher/Signing.antt =====
-- src/protocol/methods/movement/voucher.rs: signing and verifying vouchers.
use mpp_movement.Prelude.{
  ◌⊎◌, Bool-cases, is_empty, false, refl, ◌∷◌, ℕ, ◌^◌, ◌<◌, ◌≡◌, sym, ap, ◌∙◌, true, [], Option,
  none, some, arith, length, Option-cases, inl, inr,
}
use mpp_movement.Text.Equality.{text_eq_refl, text_eq_sound}
use mpp_movement.Voucher.{bytes_eq, Bytes, Crypto, serialize_voucher, sign_voucher, verify_voucher}
use mpp_movement.Voucher.Encoding.{read_voucher, read_voucher-serialize_voucher}

-- Two vouchers with the same bytes are the same voucher: a signature on one is not one on another.
pub serialize_voucher-injective :
    (id id' : Bytes) (amount amount' : ℕ)
    → amount < 2 ^ 64
    → amount' < 2 ^ 64
    → serialize_voucher id amount ≡ serialize_voucher id' amount'
    → (id ≡ id') × (amount ≡ amount')
serialize_voucher-injective id id' amount amount' h h' e = (ap read_id same, ap read_amount same)
  where
    same : ◌≡◌ {A = Option (Bytes × ℕ)} (some (id, amount)) (some (id', amount'))
    same =
        sym (read_voucher-serialize_voucher id amount h)
        ∙ (ap read_voucher e ∙ read_voucher-serialize_voucher id' amount' h')

    read_id : Option (Bytes × ℕ) → Bytes
    read_id none = []
    read_id (some (i, a)) = i

    read_amount : Option (Bytes × ℕ) → ℕ
    read_amount none = 0
    read_amount (some (i, a)) = a

-- What the crates document: a signature verifies under the signer's key, whose bytes parse back.
pub record IsCorrect (crypto : Crypto) : Type 0 where
  pub from_bytes-to_bytes :
      (k : crypto.VerifyingKey) → crypto.from_bytes (crypto.to_bytes k) ≡ some k
  pub verify-sign :
      (s : crypto.SigningKey) (m : Bytes)
      → crypto.verify (crypto.verifying_key s) m (crypto.sign s m) ≡ true
  pub length-to_bytes : (k : crypto.VerifyingKey) → length (crypto.to_bytes k) ≡ 32
  pub length-sign : (s : crypto.SigningKey) (m : Bytes) → length (crypto.sign s m) ≡ 64

module _ (crypto : Crypto) where
  abbrev pub key_bytes : crypto.SigningKey → Bytes
  key_bytes s = crypto.to_bytes (crypto.verifying_key s)

  -- A voucher that the authorised key signs is accepted.
  pub verify_voucher-sign_voucher :
      IsCorrect crypto
      → (s : crypto.SigningKey) (id : Bytes) (amount : ℕ)
      → verify_voucher crypto id amount
          (sign_voucher crypto s id amount)
          (key_bytes s)
          (key_bytes s)
        ≡ true
  unfolding verify_voucher sign_voucher
  verify_voucher-sign_voucher c s id amount = ground (
    arith,
    c.from_bytes-to_bytes (crypto.verifying_key s),
    c.verify-sign s (serialize_voucher id amount),
    text_eq_refl (crypto.to_bytes (crypto.verifying_key s)),
  )

  -- What `verify_voucher` accepts carries a signature by the presented key on that voucher, and
  -- where a signer is authorised the presented key is that signer's.
  pub verify_voucher_sound :
      (id : Bytes) (amount : ℕ) (signature public_key authorized : Bytes)
      → verify_voucher crypto id amount signature public_key authorized ≡ true
      → (k : crypto.VerifyingKey) × (crypto.from_bytes public_key ≡ some k)
        × (crypto.verify k (serialize_voucher id amount) signature ≡ true)
        × ((authorized ≡ []) ⊎ (public_key ≡ authorized))
  unfolding verify_voucher
  verify_voucher_sound id amount signature public_key authorized h =
      elim (Option-cases (crypto.from_bytes public_key)) [
        | inl e ↦ absurd (ground (arith, h, e))
        | inr (k, e) ↦ (k, e, ground (arith, h, e), authorised (Bool-cases (is_empty authorized)))
      ]
    where
      blank : (s : Bytes) → is_empty s ≡ true → s ≡ []
      blank [] k = refl
      blank (c ∷ s) k = cc

      presented :
          is_empty authorized ≡ false
          → verify_voucher crypto id amount signature public_key authorized ≡ true
          → bytes_eq public_key authorized ≡ true
      presented k passed = elim (Bool-cases (bytes_eq public_key authorized)) [
        | inl same ↦ same
        | inr other ↦ absurd (ground (arith, passed, k, other))
      ]

      authorised :
          (is_empty authorized ≡ true) ⊎ (is_empty authorized ≡ false)
          → (authorized ≡ []) ⊎ (public_key ≡ authorized)
      authorised (inl k) = inl (blank authorized k)
      authorised (inr k) = inr (text_eq_sound public_key authorized (presented k h))
