-- ===== src/DataStore.antt =====
-- The contract of subsystems/data_store.go: what an implementation of DataStore promises for the
-- operations that report no error. `contents` reads the implementation's state as a map, and `IsValid` holds
-- of the states that an implementation gets into once it is initialized.
use mathlib.Core.List.{Mem, Nodup}
use go_server_sdk.Prelude.{String, true, none, some, List, map, or_else, ◌≡◌, ◌↔◌, if◌then◌else◌}
use go_server_sdk.Types.{DataKind, ItemDescriptor, not_found, Collection, DataStore}
use go_server_sdk.MemoryStore.View.{View, same_item, supersedes, merge}
use go_server_sdk.MemoryStore.Contents.{basis_view}

pub record Lawful {A S : Type 0} (store : DataStore A S) (contents : S → View A)
    (IsValid : S → Type 0) : Type 0 where
  -- Init overwrites the contents with the given data set.
  pub init_contents :
      (cs : List (Collection A)) (s : S)
      → (store.init cs s).0 ≡ none
      → (k : DataKind) (j : String) → contents (store.init cs s).1 k j ≡ basis_view cs k j
  pub init_initialized :
      (cs : List (Collection A)) (s : S)
      → (store.init cs s).0 ≡ none
      → (store.is_initialized (store.init cs s).1).0 ≡ true
  -- Upsert writes the item if there is none or an older one, and says whether it did.
  pub upsert_contents :
      (kind : DataKind) (key : String) (item : ItemDescriptor A) (s : S)
      → (store.upsert kind key item s).0.1 ≡ none
      → (k : DataKind) (j : String)
      → contents (store.upsert kind key item s).1 k j
        ≡ (if same_item kind key k j then merge (contents s k j) item else contents s k j)
  pub upsert_result :
      (kind : DataKind) (key : String) (item : ItemDescriptor A) (s : S)
      → (store.upsert kind key item s).0.1 ≡ none
      → (store.upsert kind key item s).0.0 ≡ supersedes item (contents s kind key)
  pub init_valid :
      (cs : List (Collection A)) (s : S) → (store.init cs s).0 ≡ none → IsValid (store.init cs s).1
  pub upsert_valid :
      (kind : DataKind) (key : String) (item : ItemDescriptor A) (s : S)
      → IsValid s
      → IsValid (store.upsert kind key item s).1
  -- Get returns what the store holds, or the value for a missing item, and leaves the contents.
  pub get_result :
      (kind : DataKind) (key : String) (s : S)
      → (store.get kind key s).0.1 ≡ none
      → (store.get kind key s).0.0 ≡ or_else (contents s kind key) not_found
  pub get_contents :
      (kind : DataKind) (key : String) (s : S) (k : DataKind) (j : String)
      → contents (store.get kind key s).1 k j ≡ contents s k j
  -- GetAll lists exactly what the store holds of a kind, each key once, and leaves the contents.
  pub get_all_result :
      (kind : DataKind) (s : S)
      → IsValid s
      → (store.get_all kind s).0.1 ≡ none
      → (key : String) (item : ItemDescriptor A)
      → Mem (key, item) (store.get_all kind s).0.0 ↔ (contents s kind key ≡ some item)
  pub get_all_once :
      (kind : DataKind) (s : S)
      → IsValid s
      → (store.get_all kind s).0.1 ≡ none
      → Nodup (map (λ x. x.0) (store.get_all kind s).0.0)
  pub get_all_contents :
      (kind : DataKind) (s : S) (k : DataKind) (j : String)
      → contents (store.get_all kind s).1 k j ≡ contents s k j
