-- ===== src/KeyValue.antt =====
-- src/store.rs: the key-value stores. serde_json, Unicode's letters and digits, and the disk are
-- parameters; the disk of a `FileStore` is its directory, from file names to contents.
pub mod Model
pub mod Refinement
pub mod Tests
use mpp_movement.Prelude.{
  ℕ, Bool, true, false, ◌||◌, List, [], ◌∷◌, ◌++◌, map, Option, none, some, Result, ok, err, ◌==◌,
  if◌then◌else◌,
}
use mpp_movement.Text.{Text, codes}
use mpp_movement.Json.{Json}
use mpp_movement.Map.{Map, lookup, insert, remove}

-- The messages are left out.
pub data StoreError : Type 0 where
  internal : StoreError
  serialization : StoreError

-- The crates that the stores call: serde_json, and the tables behind `char::is_alphanumeric`.
pub record StoreCrates : Type 0 where
  pub to_string : Json → Option Text
  pub to_string_pretty : Json → Option Text
  pub from_str : Text → Option Json
  pub is_alphanumeric : ℕ → Bool

module _ (crates : StoreCrates) where
  open crates use {to_string, to_string_pretty, from_str, is_alphanumeric}

  abbrev pub parsed : Option Json → Result StoreError (Option Json)
  parsed none = err serialization
  parsed (some value) = ok (some value)

  -- A stored text, if any, as the value that it stands for.
  abbrev pub read_value : Option Text → Result StoreError (Option Json)
  read_value none = ok none
  read_value (some raw) = parsed (from_str raw)

  -- `MemoryStore`.
  abbrev pub MemoryStore : Type 0
  MemoryStore = Map Text

  unfoldable pub memory_get : Text → MemoryStore → Result StoreError (Option Json)
  memory_get key data_map = read_value (lookup key data_map)

  abbrev pub write_at : Text → Option Text → Map Text → Result StoreError (Unit {0}) × Map Text
  write_at key none texts = (err serialization, texts)
  write_at key (some raw) texts = (ok tt, insert key raw texts)

  unfoldable pub memory_put : Text → Json → MemoryStore → Result StoreError (Unit {0}) × MemoryStore
  memory_put key value data_map = write_at key (to_string value) data_map

  unfoldable pub memory_delete : Text → MemoryStore → Result StoreError (Unit {0}) × MemoryStore
  memory_delete key data_map = (ok tt, remove key data_map)

  abbrev pub safe_char : ℕ → ℕ
  safe_char c = if is_alphanumeric c || c == b'-' || c == b'_' then c else b'_'

  -- The file's name in the directory.
  unfoldable pub key_path : Text → Text
  key_path key = map safe_char key ++ codes ".json"

  abbrev pub Disk : Type 0
  Disk = Map Text

  -- How an operation of the disk ends: it succeeds, or it fails for another reason than a file that is
  -- not there, and leaves a disk behind.
  pub data Io : Type 0 where
    fine : Io
    broken : Disk → Io

  unfoldable pub file_get : Io → Text → Disk → Result StoreError (Option Json)
  file_get fine key disk = read_value (lookup (key_path key) disk)
  file_get (broken left) key disk = err internal

  abbrev write_file : Io → Text → Option Text → Disk → Result StoreError (Unit {0}) × Disk
  write_file io path none disk = (err serialization, disk)
  write_file fine path (some raw) disk = (ok tt, insert path raw disk)
  write_file (broken left) path (some raw) disk = (err internal, left)

  unfoldable pub file_put : Io → Text → Json → Disk → Result StoreError (Unit {0}) × Disk
  file_put io key value disk = write_file io (key_path key) (to_string_pretty value) disk

  unfoldable pub file_delete : Io → Text → Disk → Result StoreError (Unit {0}) × Disk
  file_delete fine key disk = (ok tt, remove (key_path key) disk)
  file_delete (broken left) key disk = (err internal, left)
