-- ===== src/Map.antt =====
-- `HashMap<String, V>` as an association list, and its laws.
use mathlib.Core.Path.{subst₂}
use mpp_movement.Prelude.{
  sym, ◌∙◌, Bool-cases, inl, inr, ◌≡◌, refl, List, [], ◌∷◌, Option, none, some, arith,
  if◌then◌else◌,
}
use mpp_movement.Text.{Text, text_eq}
use mpp_movement.Text.Equality.{text_eq_iff, text_eq_sound}

abbrev pub Map : Type 0 → Type 0
Map V = List (Text × V)

module _ {V : Type 0} where
  unfoldable pub lookup : Text → Map V → Option V
  lookup k [] = none
  lookup k ((j, v) ∷ m) = if text_eq j k then some v else lookup k m

  unfoldable pub insert : Text → V → Map V → Map V
  insert k v [] = (k, v) ∷ []
  insert k v ((j, w) ∷ m) = if text_eq j k then (k, v) ∷ m else (j, w) ∷ insert k v m

  unfoldable pub remove : Text → Map V → Map V
  remove k [] = []
  remove k ((j, w) ∷ m) = if text_eq j k then remove k m else (j, w) ∷ remove k m

  pub lookup-nil : (k : Text) → lookup k [] ≡ none
  unfolding lookup
  lookup-nil k = refl

  pub lookup-insert :
      (k j : Text) (v : V) (m : Map V)
      → lookup j (insert k v m) ≡ (if text_eq k j then some v else lookup j m)
  unfolding lookup insert
  lookup-insert k j v [] = refl
  lookup-insert k j v ((i, w) ∷ m) =
      ground (arith, text_eq_iff k j, text_eq_iff i k, text_eq_iff i j, lookup-insert k j v m)

  pub lookup-remove :
      (k j : Text) (m : Map V) → lookup j (remove k m) ≡ (if text_eq k j then none else lookup j m)
  unfolding lookup remove
  lookup-remove k j [] = ground arith
  lookup-remove k j ((i, w) ∷ m) =
      ground (arith, text_eq_iff k j, text_eq_iff i k, text_eq_iff i j, lookup-remove k j m)

  -- What holds of each entry.
  abbrev pub Holds : (Text → V → Type 0) → Map V → Type 0
  Holds P m = (k : Text) (v : V) → lookup k m ≡ some v → P k v

  pub Holds-insert :
      (P : Text → V → Type 0) (m : Map V) (k : Text) (v : V)
      → Holds P m
      → P k v
      → Holds P (insert k v m)
  Holds-insert P m k v h p j w e = elim (Bool-cases (text_eq k j)) [
    | inl same ↦
        let stored : v ≡ w = ground (arith, lookup-insert k j v m) in
        subst₂ P (text_eq_sound k j same) stored p
    | inr other ↦ let found = sym (lookup-insert k j v m) ∙ e in h j w (rw other at found)
  ]

  pub Holds-remove :
      (P : Text → V → Type 0) (m : Map V) (k : Text) → Holds P m → Holds P (remove k m)
  Holds-remove P m k h j w e = elim (Bool-cases (text_eq k j)) [
    | inl same ↦
        let found = sym (lookup-remove k j m) ∙ e in absurd (none-ne-some (rw same at found))
    | inr other ↦ let found = sym (lookup-remove k j m) ∙ e in h j w (rw other at found)
  ]
    where
      none-ne-some : {v : V} → none ≡ some v → ⊥
      none-ne-some e = cc
