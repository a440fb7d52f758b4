-- ===== src/Json.antt =====
-- `serde_json::Value` and its accessors.
use mpp_movement.Prelude.{ℕ, Bool, Option, none, some, List, [], ◌∷◌, if◌then◌else◌}
use mpp_movement.Text.{Text, text_eq}

mutual
  pub data Json : Type 0 where
    null : Json
    bool : Bool → Json
    -- A number that fits a u64, and any other.
    num : ℕ → Json
    other_num : Json
    str : Text → Json
    arr : Items → Json
    obj : Fields → Json

  pub data Items : Type 0 where
    nil : Items
    item : Json → Items → Items

  pub data Fields : Type 0 where
    end : Fields
    field : Text → Json → Fields → Fields

abbrev pub items : Items → List Json
items nil = []
items (item v vs) = v ∷ items vs

abbrev pub get_field : Text → Fields → Option Json
get_field k end = none
get_field k (field j v fs) = if text_eq j k then some v else get_field k fs

-- `value.get(key)`.
abbrev pub get : Text → Json → Option Json
get k (obj fs) = get_field k fs
get k _ = none

abbrev pub as_str : Json → Option Text
as_str (str s) = some s
as_str _ = none

abbrev pub as_bool : Json → Option Bool
as_bool (bool b) = some b
as_bool _ = none

abbrev pub as_u64 : Json → Option ℕ
as_u64 (num n) = some n
as_u64 _ = none

abbrev pub as_array : Json → Option (List Json)
as_array (arr vs) = some (items vs)
as_array _ = none
