-- ===== src/Charge/Currency.antt =====
-- src/protocol/methods/movement/method.rs: what the check of the currency establishes of a payload.
use mpp_movement.Prelude.{
  ◌≡◌, refl, sym, ap, ◌∙◌, ◌⊎◌, inl, inr, true, false, List, [], ◌∷◌, Option, none, some, ok,
  Bool-cases, Option-cases, or-eq-true, Any, any_sound, arith,
}
use mpp_movement.Text.{Text, codes, text_eq, contains}
use mpp_movement.Text.Equality.{text_eq_sound, text_eq_refl}
use mpp_movement.Json
use mpp_movement.Json.{Json, as_str}
use mpp_movement.Charge.{
  array_at, function_of, fa_transfer, move_transfer, coins_transfer, coin_transfer,
  is_coin_function, is_native_move, names_coin, first_text, wrong_coin, same_address,
  normalize_address, metadata_fits, payload_currency, verify_payload_currency,
}

-- A type argument that is the coin of MOVE.
abbrev pub NamesCoin : Json → Type 0
NamesCoin a = (s : Text) × (as_str a ≡ some s) × (contains (codes "aptos_coin::AptosCoin") s ≡ true)

-- A function that moves a coin of any type.
abbrev pub MovesCoin : Text → Type 0
MovesCoin function = (function ≡ coins_transfer) ⊎ (function ≡ coin_transfer)

module _ (to_lowercase : Text → Text) where
  -- The currency that the function of a payload moves: for a fungible asset the metadata argument,
  -- if it is a text; for the transfer of MOVE, MOVE; for a coin, where MOVE is asked for, the type
  -- argument, if there is one. Of another function nothing is said.
  pub data IsFitting (payload : Json) (currency : Text) : Type 0 where
    of_any_asset :
        function_of payload ≡ fa_transfer
        → first_text (array_at (codes "arguments") payload) ≡ none
        → IsFitting payload currency
    of_asset :
        (metadata : Text)
        → function_of payload ≡ fa_transfer
        → first_text (array_at (codes "arguments") payload) ≡ some metadata
        → normalize_address to_lowercase metadata ≡ normalize_address to_lowercase currency
        → IsFitting payload currency
    of_move :
        function_of payload ≡ move_transfer
        → is_native_move currency ≡ true
        → IsFitting payload currency
    of_any_coin :
        MovesCoin (function_of payload)
        → (array_at (codes "type_arguments") payload ≡ none)
          ⊎ (array_at (codes "type_arguments") payload ≡ some [])
        → IsFitting payload currency
    of_coin :
        (types : List Json)
        → MovesCoin (function_of payload)
        → array_at (codes "type_arguments") payload ≡ some types
        → Any NamesCoin types
        → IsFitting payload currency
    of_other_coin :
        MovesCoin (function_of payload)
        → is_native_move currency ≡ false
        → IsFitting payload currency
    of_other :
        ¬ (function_of payload ≡ fa_transfer)
        → ¬ (function_of payload ≡ move_transfer)
        → ¬ MovesCoin (function_of payload)
        → IsFitting payload currency

  names_coin_sound : (a : Json) → names_coin a ≡ true → NamesCoin a
  names_coin_sound a h = elim (Option-cases (as_str a)) [
    | inl e ↦ absurd (ground (arith, h, e))
    | inr (s, e) ↦ (s, e, ground (arith, h, e))
  ]

  text_eq-false : (s t : Text) → text_eq s t ≡ false → ¬ (s ≡ t)
  text_eq-false s t h e = absurd (ground (arith, h, ap (text_eq s) (sym e) ∙ text_eq_refl s))

  coins_sound :
      (payload : Json) (currency : Text) (types : Option (List Json))
      → MovesCoin (function_of payload)
      → array_at (codes "type_arguments") payload ≡ types
      → wrong_coin types ≡ false
      → IsFitting payload currency
  coins_sound payload currency none moves e h = of_any_coin moves (inl e)
  coins_sound payload currency (some []) moves e h = of_any_coin moves (inr e)
  coins_sound payload currency (some (t ∷ ts)) moves e h =
      of_coin (t ∷ ts) moves e
        (any_sound names_coin NamesCoin names_coin_sound (t ∷ ts) (ground (arith, h)))

  assets_sound :
      (payload : Json) (currency : Text) (metadata : Option Text)
      → function_of payload ≡ fa_transfer
      → first_text (array_at (codes "arguments") payload) ≡ metadata
      → metadata_fits to_lowercase (array_at (codes "arguments") payload) currency ≡ ok tt
      → IsFitting payload currency
  unfolding same_address
  assets_sound payload currency none function e h = of_any_asset function e
  assets_sound payload currency (some metadata) function e h =
      of_asset metadata function e (text_eq_sound _ _ (ground (arith, rw (e, metadata_fits) at h)))

  is_coin_function_sound : (function : Text) → is_coin_function function ≡ true → MovesCoin function
  is_coin_function_sound function h = elim (or-eq-true _ _ h) [
    | inl e ↦ inl (text_eq_sound _ _ e)
    | inr e ↦ inr (text_eq_sound _ _ e)
  ]

  coin_unmoved : (function : Text) → is_coin_function function ≡ false → ¬ MovesCoin function
  coin_unmoved function h (inl e) =
      absurd (text_eq-false function coins_transfer (ground (arith, h)) e)
  coin_unmoved function h (inr e) =
      absurd (text_eq-false function coin_transfer (ground (arith, h)) e)

  pub payload_currency_sound :
      (payload : Json) (currency : Text)
      → payload_currency to_lowercase payload currency ≡ ok tt
      → IsFitting payload currency
  unfolding payload_currency
  payload_currency_sound payload currency h =
      elim (Bool-cases (text_eq (function_of payload) fa_transfer)) [
        | inl asset ↦ assets_sound payload currency _ (text_eq_sound _ _ asset) refl (rw asset at h)
        | inr unlike ↦ elim (Bool-cases (text_eq (function_of payload) move_transfer)) [
          | inl move ↦ of_move (text_eq_sound _ _ move) (ground (arith, rw (unlike, move) at h))
          | inr other ↦ elim (Bool-cases (is_coin_function (function_of payload))) [
            | inl coin ↦ elim (Bool-cases (is_native_move currency)) [
              | inl native ↦
                  coins_sound payload currency _ (is_coin_function_sound _ coin) refl
                    (ground (arith, rw (unlike, other) at h, coin, native))
              | inr foreign ↦ of_other_coin (is_coin_function_sound _ coin) foreign
            ]
            | inr plain ↦
                of_other (text_eq-false _ _ unlike) (text_eq-false _ _ other) (coin_unmoved _ plain)
          ]
        ]
      ]

  -- A transaction without a payload, or with one that fits the currency.
  abbrev pub FitsCurrency : Json → Text → Type 0
  FitsCurrency tx currency =
      (Json.get (codes "payload") tx ≡ none)
      ⊎ ((payload : Json) × (Json.get (codes "payload") tx ≡ some payload)
          × IsFitting payload currency)

  pub verify_payload_currency_sound :
      (tx : Json) (currency : Text)
      → verify_payload_currency to_lowercase tx currency ≡ ok tt
      → FitsCurrency tx currency
  unfolding verify_payload_currency
  verify_payload_currency_sound tx currency h =
      elim (Option-cases (Json.get (codes "payload") tx)) [
        | inl e ↦ inl e
        | inr (payload, e) ↦ inr (
          payload,
          e,
          payload_currency_sound payload currency (rw (e, verify_payload_currency) at h),
        )
      ]
