-- ===== src/KeyValue/Model.antt =====
-- src/store.rs: the map from keys to values that `Store` promises, and texts that stand for one.
use mpp_movement.Prelude.{
  ◌≡◌, refl, sym, ap, ◌∙◌, inl, inr, true, false, List, [], ◌∷◌, ◌++◌, Option, none, some, Result,
  ok, arith, if◌then◌else◌, Bool-cases, All, length, length-append,
}
use mpp_movement.Text.{Text, text_eq}
use mpp_movement.Text.Equality.{text_eq_sound, text_eq_refl}
use mpp_movement.Json.{Json}
use mpp_movement.Map.{Map, lookup, insert, remove, lookup-insert, lookup-remove, lookup-nil}
use mpp_movement.KeyValue.{StoreError, StoreCrates, read_value, parsed}

-- One operation, and what it answers.
pub data Operation : Type 0 where
  get : Text → Operation
  put : Text → Json → Operation
  delete : Text → Operation

pub data Answer : Type 0 where
  value : Result StoreError (Option Json) → Answer
  status : Result StoreError (Unit {0}) → Answer

abbrev pub key_of : Operation → Text
key_of (get k) = k
key_of (put k v) = k
key_of (delete k) = k

-- What the interface promises: a map from keys to values.
abbrev pub Model : Type 0
Model = Text → Option Json

abbrev pub step_model : Operation → Model → Answer × Model
step_model (get k) m = (value (ok (m k)), m)
step_model (put k v) m = (status (ok tt), λ j. if text_eq k j then some v else m j)
step_model (delete k) m = (status (ok tt), λ j. if text_eq k j then none else m j)

pub run_all : {S : Type 0} → (Operation → S → Answer × S) → List Operation → S → List Answer
run_all step [] s = []
run_all step (o ∷ os) s = (step o s).0 ∷ run_all step os (step o s).1

-- A simulation gives the same answers.
pub run_all-simulates :
    {S : Type 0} (step : Operation → S → Answer × S) (Rep : S → Model → Type 0)
    (Good : Operation → Type 0)
    → ((o : Operation) (s : S) (m : Model)
        → Good o
        → Rep s m
        → ((step o s).0 ≡ (step_model o m).0) × Rep (step o s).1 (step_model o m).1)
    → (os : List Operation) (s : S) (m : Model) → All Good os
    → Rep s m
    → run_all step os s ≡ run_all step_model os m
unfolding run_all
run_all-simulates step Rep Good keeps [] s m good r = refl
run_all-simulates step Rep Good keeps (o ∷ os) s m good r =
    let (same, r') = keeps o s m good.0 r in
    cc (same, run_all-simulates step Rep Good keeps os (step o s).1 (step_model o m).1 good.1 r')

pub append_cancel_right : (xs ys zs : Text) → xs ++ zs ≡ ys ++ zs → xs ≡ ys
append_cancel_right [] [] zs e = refl
append_cancel_right [] (y ∷ ys) zs e = absurd (omega (arith, ap length e, length-append ys zs))
append_cancel_right (x ∷ xs) [] zs e = absurd (omega (arith, ap length e, length-append xs zs))
append_cancel_right (x ∷ xs) (y ∷ ys) zs e =
    let same : x ≡ y = cc in cc (same, append_cancel_right xs ys zs (cc))

module _ (crates : StoreCrates) where
  open crates use {from_str}

  -- The texts, under the names that keys go by, stand for the values of the map.
  module _ (path : Text → Text) (Good : Text → Type 0)
      (apart : (k j : Text) → Good k → Good j → path k ≡ path j → k ≡ j) where
    abbrev pub Rep : Map Text → Model → Type 0
    Rep texts m = (k : Text) → Good k → read_value crates (lookup (path k) texts) ≡ ok (m k)

    paths_eq : (k j : Text) → Good k → Good j → text_eq (path k) (path j) ≡ text_eq k j
    paths_eq k j hk hj = elim (Bool-cases (text_eq k j)) [
      | inl same ↦
          let e = ap path (text_eq_sound k j same) in
          rw same (ap (λ p. text_eq p (path j)) e ∙ text_eq_refl (path j))
      | inr other ↦ elim (Bool-cases (text_eq (path k) (path j))) [
        | inl same ↦
            let e = apart k j hk hj (text_eq_sound (path k) (path j) same) in
            absurd (differs e other)
        | inr e ↦ rw (e, other) refl
      ]
    ]
      where
        differs : k ≡ j → text_eq k j ≡ false → ⊥
        differs e h = let t : text_eq k j ≡ true = ap (text_eq k) (sym e) ∙ text_eq_refl k in cc

    pub insert-Rep :
        (texts : Map Text) (m : Model) (k raw : Text) (v : Json)
        → Good k
        → from_str raw ≡ some v
        → Rep texts m
        → Rep (insert (path k) raw texts) (λ j. if text_eq k j then some v else m j)
    insert-Rep texts m k raw v hk read r j hj =
        ap (read_value crates) (lookup-insert (path k) (path j) raw texts) ∙ go
      where
        go :
            read_value crates
              (if text_eq (path k) (path j) then some raw else lookup (path j) texts)
            ≡ ok (if text_eq k j then some v else m j)
        go = elim (Bool-cases (text_eq k j)) [
          | inl same ↦ rw (paths_eq k j hk hj, same) (ap (parsed crates) read)
          | inr other ↦ rw (paths_eq k j hk hj, other) (r j hj)
        ]

    pub remove-Rep :
        (texts : Map Text) (m : Model) (k : Text)
        → Good k
        → Rep texts m
        → Rep (remove (path k) texts) (λ j. if text_eq k j then none else m j)
    remove-Rep texts m k hk r j hj =
        ap (read_value crates) (lookup-remove (path k) (path j) texts) ∙ go
      where
        go :
            read_value crates (if text_eq (path k) (path j) then none else lookup (path j) texts)
            ≡ ok (if text_eq k j then none else m j)
        go = elim (Bool-cases (text_eq k j)) [
          | inl same ↦ rw (paths_eq k j hk hj, same) refl
          | inr other ↦ rw (paths_eq k j hk hj, other) (r j hj)
        ]

    pub nil-Rep : Rep [] (λ k. none)
    nil-Rep k h = ap (read_value crates) (lookup-nil (path k))
