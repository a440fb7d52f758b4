-- ===== src/KeyValue/Tests.antt =====
-- The theorems on stores at a toy serde, which writes texts alone.
use mpp_movement.Prelude.{◌≡◌, refl, ◌||◌, ◌&&◌, leb, [], ◌∷◌, List, none, some, ok, Option}
use mpp_movement.Text.{Text, codes}
use mpp_movement.Json.{Json, str}
use mpp_movement.KeyValue.{StoreCrates, file_get, file_put, fine}
use mpp_movement.KeyValue.Model.{Operation, get, put, delete, step_model, run_all}
use mpp_movement.KeyValue.Refinement.{
  step_memory, step_file, memory_store_refines, file_store_refines, file_store_collides,
}

abbrev write_text : Json → Option Text
write_text (str s) = some s
write_text _ = none

abbrev toy_crates : StoreCrates
toy_crates = record {
  to_string = write_text;
  to_string_pretty = write_text;
  from_str = λ s. some (str s);
  is_alphanumeric =
      λ c. (leb 48 c && leb c 57) || (leb 65 c && leb c 90) || (leb 97 c && leb c 122);
}

abbrev toy_operations : List Operation
toy_operations =
    put (codes "a-1") (str (codes "x"))
    ∷ put (codes "b") (str (codes "y"))
    ∷ delete (codes "a-1")
    ∷ get (codes "a-1")
    ∷ get (codes "b")
    ∷ []

memory_store_refines_example :
    run_all (step_memory toy_crates) toy_operations []
    ≡ run_all step_model toy_operations (λ k. none)
memory_store_refines_example =
    memory_store_refines toy_crates toy_operations
      ((_, refl, refl), ((_, refl, refl), (tt, (tt, (tt, tt)))))

file_store_refines_example :
    run_all (step_file toy_crates) toy_operations [] ≡ run_all step_model toy_operations (λ k. none)
file_store_refines_example = file_store_refines toy_crates toy_operations (
  ((refl, (refl, (refl, tt))), (_, refl, refl)),
  (
    ((refl, tt), (_, refl, refl)),
    (((refl, (refl, (refl, tt))), tt), (((refl, (refl, (refl, tt))), tt), (((refl, tt), tt), tt))),
  ),
)

file_store_collides_example :
    file_get toy_crates fine
      (codes "a/b")
      (file_put toy_crates fine (codes "a:b") (str (codes "x")) []).1
    ≡ ok (some (str (codes "x")))
file_store_collides_example =
    file_store_collides toy_crates (codes "a:b") (codes "a/b") (str (codes "x")) [] (_, refl, refl)
      refl
