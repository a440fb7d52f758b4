-- ===== src/KeyValue/Refinement.antt =====
-- The stores of src/store.rs beside the map from keys to values that `Store` promises.
use mpp_movement.Prelude.{
  ◌≡◌, refl, sym, ap, ◌∙◌, List, [], ◌∷◌, ◌++◌, Option, none, some, ok, All, map,
}
use mpp_movement.Text.{Text, codes}
use mpp_movement.Text.Equality.{text_eq_refl}
use mpp_movement.Json.{Json}
use mpp_movement.Map.{Map, lookup, insert, lookup-insert}
use mpp_movement.KeyValue.{
  StoreCrates, read_value, parsed, memory_get, memory_put, memory_delete, file_get, file_put,
  file_delete, key_path, fine, safe_char,
}
use mpp_movement.KeyValue.Model.{
  Operation, get, put, delete, Answer, value, status, key_of, Model, step_model, run_all,
  run_all-simulates, append_cancel_right, Rep, insert-Rep, remove-Rep, nil-Rep,
}

module _ (crates : StoreCrates) where
  open crates use {from_str}

  -- What is put can be written and is read back, as serde_json documents of its values.
  abbrev pub IsWritable : (Json → Option Text) → Json → Type 0
  IsWritable write v = (raw : Text) × (write v ≡ some raw) × (from_str raw ≡ some v)

  abbrev pub Puts : (Json → Option Text) → Operation → Type 0
  Puts write (put k v) = IsWritable write v
  Puts write _ = Unit

  abbrev pub step_memory : Operation → Map Text → Answer × Map Text
  step_memory (get k) s = (value (memory_get crates k s), s)
  step_memory (put k v) s = (status (memory_put crates k v s).0, (memory_put crates k v s).1)
  step_memory (delete k) s = (status (memory_delete crates k s).0, (memory_delete crates k s).1)

  abbrev Always : Text → Type 0
  Always k = Unit

  abbrev Stands : Map Text → Model → Type 0
  Stands = Rep crates (λ k. k) Always (λ k j h h' e. e)

  step_memory-Stands :
      (o : Operation) (s : Map Text) (m : Model)
      → Puts crates.to_string o
      → Stands s m
      → ((step_memory o s).0 ≡ (step_model o m).0) × Stands (step_memory o s).1 (step_model o m).1
  unfolding memory_get memory_put memory_delete
  step_memory-Stands (get k) s m h r = (ap value (r k tt), r)
  step_memory-Stands (put k v) s m (raw, written, read) r =
      rw written (refl, insert-Rep crates (λ k. k) Always (λ k j h h' e. e) s m k raw v tt read r)
  step_memory-Stands (delete k) s m h r =
      (refl, remove-Rep crates (λ k. k) Always (λ k j h h' e. e) s m k tt r)

  -- Whatever the operations, as long as what they put can be written and is read back, a new
  -- `MemoryStore` answers each as the map from keys to values does.
  pub memory_store_refines :
      (operations : List Operation)
      → All (Puts crates.to_string) operations
      → run_all step_memory operations [] ≡ run_all step_model operations (λ k. none)
  memory_store_refines operations puts =
      run_all-simulates step_memory Stands (Puts crates.to_string) step_memory-Stands operations []
        _ puts (nil-Rep crates (λ k. k) Always (λ k j h h' e. e))

  -- A disk that does not fail.
  abbrev pub step_file : Operation → Map Text → Answer × Map Text
  step_file (get k) s = (value (file_get crates fine k s), s)
  step_file (put k v) s = (status (file_put crates fine k v s).0, (file_put crates fine k v s).1)
  step_file (delete k) s = (status (file_delete crates fine k s).0, (file_delete crates fine k s).1)

  -- A key of letters, digits, dashes and underscores.
  abbrev pub IsPlain : Text → Type 0
  IsPlain = All (λ c. safe_char crates c ≡ c)

  map-safe_char : (k : Text) → IsPlain k → map (safe_char crates) k ≡ k
  map-safe_char [] h = refl
  map-safe_char (c ∷ k) h = cc (h.0, map-safe_char k h.1)

  key_path-apart :
      (k j : Text) → IsPlain k → IsPlain j → key_path crates k ≡ key_path crates j → k ≡ j
  unfolding key_path
  key_path-apart k j hk hj e = append_cancel_right k j (codes ".json") (
      ap (λ (t : Text). t ++ codes ".json") (sym (map-safe_char k hk))
      ∙ (e ∙ ap (λ (t : Text). t ++ codes ".json") (map-safe_char j hj)))

  abbrev Files : Map Text → Model → Type 0
  Files = Rep crates (key_path crates) IsPlain key_path-apart

  -- An operation on such a key, with a value that can be written.
  abbrev pub IsKept : Operation → Type 0
  IsKept o = IsPlain (key_of o) × Puts crates.to_string_pretty o

  step_file-Files :
      (o : Operation) (s : Map Text) (m : Model)
      → IsKept o
      → Files s m
      → ((step_file o s).0 ≡ (step_model o m).0) × Files (step_file o s).1 (step_model o m).1
  unfolding file_get file_put file_delete
  step_file-Files (get k) s m (h, _) r = (ap value (r k h), r)
  step_file-Files (put k v) s m (h, (raw, written, read)) r =
      rw written
        (refl, insert-Rep crates (key_path crates) IsPlain key_path-apart s m k raw v h read r)
  step_file-Files (delete k) s m (h, _) r =
      (refl, remove-Rep crates (key_path crates) IsPlain key_path-apart s m k h r)

  -- On keys of letters, digits, dashes and underscores, a new `FileStore` in an empty directory
  -- answers each operation as the map from keys to values does, as long as the disk does not fail and
  -- what is put can be written and is read back.
  pub file_store_refines :
      (operations : List Operation)
      → All IsKept operations
      → run_all step_file operations [] ≡ run_all step_model operations (λ k. none)
  file_store_refines operations kept =
      run_all-simulates step_file Files IsKept step_file-Files operations [] _ kept
        (nil-Rep crates (key_path crates) IsPlain key_path-apart)

  -- Two keys that differ only in other characters share a file: a value that can be written and is
  -- read back is, once put under the one, read under the other, whatever was there.
  pub file_store_collides :
      (k j : Text) (v : Json) (disk : Map Text)
      → IsWritable crates.to_string_pretty v
      → map (safe_char crates) k ≡ map (safe_char crates) j
      → file_get crates fine j (file_put crates fine k v disk).1 ≡ ok (some v)
  unfolding file_get file_put key_path
  file_store_collides k j v disk (raw, written, read) e =
      rw written (rw e (stored (map (safe_char crates) j ++ codes ".json")))
    where
      stored : (file : Text) → read_value crates (lookup file (insert file raw disk)) ≡ ok (some v)
      stored file =
          rw (lookup-insert file file raw disk, text_eq_refl file) (ap (parsed crates) read)
