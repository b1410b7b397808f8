-- ===== src/Samples/Modes.antt =====
-- The data system's store with an in-memory store in the place of the persistent one.
use mathlib.Core.List.Perm
use go_server_sdk.Prelude.{String, List, [], ◌∷◌, true, ◌≡◌, refl, some, pos}
use go_server_sdk.Types.{DataKind, features, kind_eq}
use go_server_sdk.MemoryStore
use go_server_sdk.MemoryStore.View.{view}
use go_server_sdk.Proto.{Event, put_object, no_selector}
use go_server_sdk.InMemoryDataStore.{InMemoryDataStore, new_in_memory_data_store, init}
use go_server_sdk.InMemoryDataStore.Laws.{contents, in_memory-Lawful}
use go_server_sdk.DataSystem.{
  Store, PersistentStore, new_store, with_persistence, set_basis, get, mode_read, mode_read_write,
  ListOrder,
}
use go_server_sdk.DataSystem.Modes.{
  Update, basis, delta, committing, update, reading, run, run_updates, run_updates-unwritable,
  get-after_basis,
}
use go_server_sdk.DataSystem.Mirror.{set_basis-mirrors}
use go_server_sdk.Samples.{Item, Item-set, sample_model, sample_order, sample_store, same_items}

abbrev S : Type 0
S = InMemoryDataStore Item

abbrev events : List (Event Item)
events = put_object (record { version = pos 2; kind = "flag"; key = "a"; object = some [] }) ∷ []

abbrev newer : List (Event Item)
newer = put_object (record { version = pos 3; kind = "flag"; key = "a"; object = some [] }) ∷ []

abbrev list : ListOrder Item
list = record { item_order = same_items; kind_order = λ l. l }

abbrev read_only : Store Item S
read_only = with_persistence new_in_memory_data_store mode_read new_store

abbrev mirrored : PersistentStore S
mirrored = record { state = new_in_memory_data_store; mode = mode_read_write }

abbrev read_write : Store Item S
read_write = with_persistence new_in_memory_data_store mode_read_write new_store

abbrev updates : List (Update Item)
updates = basis events no_selector true ∷ delta newer no_selector true ∷ committing ∷ []

run_updates-unwritable_example :
    (run_updates sample_store sample_model sample_order list updates read_only).persistent_store
    ≡ read_only.persistent_store
unfolding with_persistence new_store
run_updates-unwritable_example =
    run_updates-unwritable sample_store sample_model sample_order list updates read_only refl

abbrev after : Store Item S
after =
    run sample_store sample_model sample_order list
      (update (delta newer no_selector true) ∷ reading features "a" ∷ [])
      (set_basis sample_store sample_model sample_order events no_selector true read_write)

get-after_basis_example :
    get sample_store features "a" after ≡ (MemoryStore.get features "a" after.memory_store, after)
get-after_basis_example =
    get-after_basis sample_store sample_model sample_order list events no_selector true
      (update (delta newer no_selector true) ∷ reading features "a" ∷ []) read_write features "a"

set_basis-mirrors_example :
    let s' = set_basis sample_store sample_model sample_order events no_selector true read_write in
    (p' : PersistentStore S) × (s'.persistent_store ≡ some p')
    × ((k : DataKind) (j : String) → contents p'.state k j ≡ view s'.memory_store k j)
unfolding with_persistence new_store init
set_basis-mirrors_example =
    set_basis-mirrors Item-set sample_store contents
      (in_memory-Lawful Item-set same_items (λ l. Perm.refl l)).0 sample_model sample_order events
      no_selector read_write mirrored refl refl refl
