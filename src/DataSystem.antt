-- ===== src/DataSystem.antt =====
-- internal/datasystem/store.go: the dual-mode store. Every method holds the store's lock throughout, so
-- it is one step. The persistent store is any implementation `impl` of DataStore over a state `S`.
-- The status provider, which the store only hands back, and the loggers are left out.
pub mod Modes
pub mod Mirror
use go_server_sdk.Prelude.{
  String, Bool, true, false, ◌&&◌, Option, none, some, List, [], ◌∷◌, if◌then◌else◌,
}
use go_server_sdk.Types.{
  DataKind, ItemDescriptor, KeyedItemDescriptor, Collection, Error, DataStore,
}
use go_server_sdk.MemoryStore
use go_server_sdk.Proto.{Event, Selector, no_selector, to_storable_items}
use go_server_sdk.Toposort.{LdModel, MapOrder, sort}

pub data DataStoreMode : Type 0 where
  mode_read mode_read_write : DataStoreMode

pub record PersistentStore (S : Type 0) : Type 0 where
  pub state : S
  pub mode : DataStoreMode

-- Which of the two stores `active` points to.
pub data Active : Type 0 where
  memory persistent : Active

pub record Store (A S : Type 0) : Type 0 where
  pub persistent_store : Option (PersistentStore S)
  pub memory_store : MemoryStore.Store A
  pub persist : Bool
  pub active : Active
  pub selector : Option Selector

abbrev pub is_read_write : DataStoreMode → Bool
is_read_write mode_read = false
is_read_write mode_read_write = true

abbrev pub writable : {S : Type 0} → Option (PersistentStore S) → Bool
writable none = false
writable (some p) = is_read_write p.mode

-- The write of a new implementation state into the persistent store, if there is one.
abbrev pub map_state :
    {S : Type 0} → (S → S) → Option (PersistentStore S) → Option (PersistentStore S)
map_state f none = none
map_state f (some p) = some (record p { state = f p.state })

module _ {A S : Type 0} where
  unfoldable pub new_store : Store A S
  new_store = record {
    persistent_store = none;
    memory_store = MemoryStore.new;
    persist = false;
    active = memory;
    selector = no_selector;
  }

  unfoldable pub with_persistence : S → DataStoreMode → Store A S → Store A S
  with_persistence state mode s = record s {
    persistent_store = some (record { state = state; mode = mode });
    active = persistent;
  }

  abbrev pub should_persist : Store A S → Bool
  should_persist s = s.persist && writable s.persistent_store

-- The orders in which the memory store's maps are visited when it is listed.
pub record ListOrder (A : Type 0) : Type 0 where
  pub item_order : List (KeyedItemDescriptor A) → List (KeyedItemDescriptor A)
  pub kind_order : List DataKind → List DataKind

module _ {A S : Type 0} (impl : DataStore A S) where
  close_persistent : Store A S → Option (PersistentStore S) → Error × Store A S
  close_persistent s none = (none, s)
  close_persistent s (some p) =
      let (err, state) = impl.close p.state in
      (err, record s { persistent_store = some (record p { state = state }) })

  unfoldable pub close : Store A S → Error × Store A S
  unfolding close_persistent
  close s = close_persistent s s.persistent_store

  -- The two loops of ApplyDelta over the persistent store. An error is logged and the loop goes on.
  unfoldable pub upsert_items : DataKind → List (KeyedItemDescriptor A) → S → S
  upsert_items kind [] state = state
  upsert_items kind ((key, item) ∷ items) state =
      upsert_items kind items (impl.upsert kind key item state).1

  unfoldable pub upsert_collections : List (Collection A) → S → S
  unfolding upsert_items
  upsert_collections [] state = state
  upsert_collections (c ∷ cs) state = upsert_collections cs (upsert_items c.kind c.items state)

  module _ (model : LdModel A) (order : MapOrder) where
    unfoldable pub set_basis : List (Event A) → Option Selector → Bool → Store A S → Store A S
    set_basis events selector persist s =
        let collections = to_storable_items events in
        let s' : Store A S = record s {
          memory_store = MemoryStore.set_basis collections s.memory_store;
          persist = persist;
          selector = selector;
          active = memory;
        } in
        if should_persist s'
        then record s' {
          persistent_store =
              map_state (λ state. (impl.init (sort model order collections) state).1)
                s.persistent_store;
        }
        else s'

    unfoldable pub apply_delta : List (Event A) → Option Selector → Bool → Store A S → Store A S
    unfolding upsert_collections
    apply_delta events selector persist s =
        let collections = to_storable_items events in
        let s' : Store A S = record s {
          memory_store = (MemoryStore.apply_delta collections s.memory_store).0;
          persist = persist;
          selector = selector;
        } in
        if should_persist s'
        then record s' {
          persistent_store =
              map_state (upsert_collections (sort model order collections)) s.persistent_store;
        }
        else s'

  module _ (list : ListOrder A) where
    commit_to : Store A S → Option (PersistentStore S) → Error × Store A S
    commit_to s none = (none, s)
    commit_to s (some p) =
        let all = MemoryStore.get_all_kinds list.item_order list.kind_order s.memory_store in
        let (err, state) = impl.init all p.state in
        (err, record s { persistent_store = some (record p { state = state }) })

    unfoldable pub commit : Store A S → Error × Store A S
    unfolding commit_to
    commit s = if should_persist s then commit_to s s.persistent_store else (none, s)

    read_all_from :
        Store A S
        → DataKind
        → Active
        → Option (PersistentStore S)
        → (List (KeyedItemDescriptor A) × Error) × Store A S
    read_all_from s kind persistent (some p) =
        let (result, state) = impl.get_all kind p.state in
        (result, record s { persistent_store = some (record p { state = state }) })
    read_all_from s kind _ _ = ((MemoryStore.get_all list.item_order kind s.memory_store, none), s)

    -- A read goes to the active store; a persistent store may change its state on a read (its cache).
    unfoldable pub get_all :
        DataKind → Store A S → (List (KeyedItemDescriptor A) × Error) × Store A S
    unfolding read_all_from
    get_all kind s = read_all_from s kind s.active s.persistent_store

  read_from :
      Store A S
      → DataKind
      → String
      → Active
      → Option (PersistentStore S)
      → (ItemDescriptor A × Error) × Store A S
  read_from s kind key persistent (some p) =
      let (result, state) = impl.get kind key p.state in
      (result, record s { persistent_store = some (record p { state = state }) })
  read_from s kind key _ _ = (MemoryStore.get kind key s.memory_store, s)

  unfoldable pub get : DataKind → String → Store A S → (ItemDescriptor A × Error) × Store A S
  unfolding read_from
  get kind key s = read_from s kind key s.active s.persistent_store

  initialized_from : Store A S → Active → Option (PersistentStore S) → Bool × Store A S
  initialized_from s persistent (some p) =
      let (result, state) = impl.is_initialized p.state in
      (result, record s { persistent_store = some (record p { state = state }) })
  initialized_from s _ _ = (MemoryStore.is_initialized s.memory_store, s)

  unfoldable pub is_initialized : Store A S → Bool × Store A S
  unfolding initialized_from
  is_initialized s = initialized_from s s.active s.persistent_store
