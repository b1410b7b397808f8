-- ===== src/InMemoryDataStore.antt =====
-- internal/datastore/in_memory_data_store_impl.go. The maps are those of `MemoryStore`, and so is the
-- text of Init and Upsert: `collect` is the loop of Init, `upsert_existing` the branches of Upsert.
pub mod Laws
use go_server_sdk.Prelude.{String, string_eq, Bool, true, false, none, List, [], lookup, or_else}
use go_server_sdk.Types.{
  DataKind, kind_eq, ItemDescriptor, not_found, KeyedItemDescriptor, Collection, Error, DataStore,
}
use go_server_sdk.MemoryStore.{Data, collect, upsert_existing, find}

pub record InMemoryDataStore (A : Type 0) : Type 0 where
  pub all_data : Data A
  pub initialized : Bool

module _ {A : Type 0} where
  unfoldable pub new_in_memory_data_store : InMemoryDataStore A
  new_in_memory_data_store = record { all_data = []; initialized = false }

  unfoldable pub init : List (Collection A) → InMemoryDataStore A → Error × InMemoryDataStore A
  init all_data s = (none, record { all_data = collect all_data []; initialized = true })

  unfoldable pub get :
      DataKind → String → InMemoryDataStore A → (ItemDescriptor A × Error) × InMemoryDataStore A
  get kind key s = ((or_else (find kind key s.all_data) not_found, none), s)

  unfoldable pub upsert :
      DataKind
      → String
      → ItemDescriptor A
      → InMemoryDataStore A
      → (Bool × Error) × InMemoryDataStore A
  upsert kind key new_item s =
      let (d, updated) = upsert_existing kind key new_item (lookup kind s.all_data) s.all_data in
      ((updated, none), record s { all_data = d })

  -- The order in which Go ranges over the map is `order`.
  unfoldable pub get_all :
      (List (KeyedItemDescriptor A) → List (KeyedItemDescriptor A))
      → DataKind
      → InMemoryDataStore A
      → (List (KeyedItemDescriptor A) × Error) × InMemoryDataStore A
  get_all order kind s = ((order (or_else (lookup kind s.all_data) []), none), s)

  -- The methods, as an implementation of the DataStore interface.
  abbrev pub in_memory :
      (List (KeyedItemDescriptor A) → List (KeyedItemDescriptor A))
      → DataStore A (InMemoryDataStore A)
  in_memory order = record {
    init = init;
    get = get;
    get_all = get_all order;
    upsert = upsert;
    is_initialized = λ s. (s.initialized, s);
    is_status_monitoring_enabled = false;
    close = λ s. (none, s);
  }
