-- ===== src/UpdateSink.antt =====
-- internal/datasource/data_source_update_sink_impl.go: what a data source does to the data store,
-- the graph of references, the listeners and the status.
pub mod Status
pub mod Runs
pub mod Outage
pub mod Changes
pub mod Effects
pub mod Graph
pub mod Held
pub mod FullData
pub mod Failures
use go_server_sdk.Prelude.{
  ℕ, String, string_eq, Bool, true, false, not, ◌&&◌, ◌||◌, Option, none, some, List, [], ◌∷◌, ◌++◌,
  ◌==◌, Map, lookup, has_key, insert, insert_all, or_else, is_some, keys, if◌then◌else◌, ltb_ℤ,
}
use go_server_sdk.Types.{
  DataKind, features, segments, kind_eq, ItemDescriptor, not_found, KeyedItemDescriptor, Collection,
  Error, DataStore,
}
use go_server_sdk.Toposort.{Vertex, new_vertex, Neighbors, LdModel, MapOrder, sort}
use go_server_sdk.Dependencies.{
  DependencyTracker, update_dependencies_from, reset, add_affected_items,
}
use go_server_sdk.UpdateSink.Status.{Statuses, interrupted, store_error, update_status}

abbrev pub all_data_kinds : List DataKind
all_data_kinds = features ∷ segments ∷ []

-- A map of items by kind and key.
abbrev pub DataMap : Type 0 → Type 0
DataMap A = Map DataKind (Map String (ItemDescriptor A))

-- The sink over the state `S` of its data store. The broadcasters' outputs are listed with the last
-- one first, as are the warnings; `has_listeners` is what the flag change broadcaster answers.
pub record UpdateSink (S : Type 0) : Type 0 where
  pub store : S
  pub dependency_tracker : DependencyTracker
  pub statuses : Statuses
  pub last_store_update_failed : Bool
  pub has_listeners : Bool
  pub flag_change_events : List String
  pub warnings : List String

module _ {S : Type 0} where
  unfoldable pub maybe_update_error : ℕ → Error → UpdateSink S → Bool × UpdateSink S
  maybe_update_error now none d = (true, record d { last_store_update_failed = false })
  maybe_update_error now (some message) d = (
    false,
    record d {
      statuses =
          update_status now interrupted
            (record { kind = store_error; status_code = 0; message = message; time = now })
            d.statuses;
      last_store_update_failed = true;
      warnings = if d.last_store_update_failed then d.warnings else message ∷ d.warnings;
    },
  )

-- The loop of sendChangeEvents over the items.
unfoldable pub flag_events : List Vertex → List String → List String
flag_events [] events = events
flag_events ((kind, key) ∷ items) events =
    flag_events items (if kind == features then key ∷ events else events)

-- The map of a list of items: the last one of a key wins.
unfoldable pub items_map :
    {A : Type 0} → List (KeyedItemDescriptor A) → Map String (ItemDescriptor A)
items_map items = insert_all items []

unfoldable pub full_data_set_to_map_from :
    {A : Type 0} → List (Collection A) → DataMap A → DataMap A
unfolding items_map
full_data_set_to_map_from [] ret = ret
full_data_set_to_map_from (coll ∷ colls) ret =
    full_data_set_to_map_from colls (insert coll.kind (items_map coll.items) ret)

unfoldable pub full_data_set_to_map : {A : Type 0} → List (Collection A) → DataMap A
unfolding full_data_set_to_map_from
full_data_set_to_map all_data = full_data_set_to_map_from all_data []

-- The test on the items that two data sets have under one key.
unfoldable pub is_changed :
    {A : Type 0} → Option (ItemDescriptor A) → Option (ItemDescriptor A) → Bool
is_changed none none = false
is_changed none (some _) = true
is_changed (some _) none = true
is_changed (some old_item) (some new_item) = ltb_ℤ old_item.version new_item.version

-- The keys of the new items that the old ones do not have.
unfoldable pub new_keys : {A : Type 0} → Map String (ItemDescriptor A) → List String → List String
new_keys old_items [] = []
new_keys old_items (key ∷ ks) =
    let rest = new_keys old_items ks in if has_key key old_items then rest else key ∷ rest

module _ {A : Type 0} (order : MapOrder) where
  -- The loop over the keys of one kind.
  unfoldable pub add_changed :
      DependencyTracker
      → DataKind
      → Map String (ItemDescriptor A)
      → Map String (ItemDescriptor A)
      → List String
      → Neighbors
      → Neighbors
  unfolding is_changed
  add_changed tracker kind old_items new_items [] affected = affected
  add_changed tracker kind old_items new_items (key ∷ ks) affected =
      add_changed tracker kind old_items new_items ks (
        if is_changed (lookup key old_items) (lookup key new_items)
        then add_affected_items order tracker affected (new_vertex kind key)
        else affected)

  -- The loop over the kinds.
  unfoldable pub add_changed_kinds :
      DependencyTracker → DataMap A → DataMap A → List DataKind → Neighbors → Neighbors
  unfolding add_changed new_keys
  add_changed_kinds tracker old_data_map new_data_map [] affected = affected
  add_changed_kinds tracker old_data_map new_data_map (kind ∷ kinds) affected =
      let old_items = or_else (lookup kind old_data_map) [] in
      let new_items = or_else (lookup kind new_data_map) [] in
      let all_keys =
        order.key_order (keys old_items) ++ new_keys old_items (order.key_order (keys new_items)) in
      add_changed_kinds tracker old_data_map new_data_map kinds
        (add_changed tracker kind old_items new_items all_keys affected)

  unfoldable pub compute_changed_items_for_full_data_set :
      DependencyTracker → DataMap A → DataMap A → Neighbors
  unfolding add_changed_kinds
  compute_changed_items_for_full_data_set tracker old_data_map new_data_map =
      add_changed_kinds tracker old_data_map new_data_map all_data_kinds []

module _ {A S : Type 0} (model : LdModel A) (order : MapOrder) (store : DataStore A S) where
  unfoldable pub send_change_events : Neighbors → UpdateSink S → UpdateSink S
  unfolding flag_events
  send_change_events affected_items d = record d {
    flag_change_events =
        flag_events (order.vertex_order (keys affected_items)) d.flag_change_events;
  }

  -- The loop over the items of a collection.
  unfoldable pub track_items :
      DataKind → List (KeyedItemDescriptor A) → DependencyTracker → DependencyTracker
  track_items kind [] t = t
  track_items kind ((key, item) ∷ items) t =
      track_items kind items (update_dependencies_from model order kind key item t)

  unfoldable pub track_collections : List (Collection A) → DependencyTracker → DependencyTracker
  unfolding track_items
  track_collections [] t = t
  track_collections (coll ∷ colls) t = track_collections colls (track_items coll.kind coll.items t)

  unfoldable pub update_dependency_tracker_from_full_data_set :
      List (Collection A) → UpdateSink S → UpdateSink S
  unfolding track_collections
  update_dependency_tracker_from_full_data_set all_data d = record d {
    dependency_tracker = track_collections all_data (reset d.dependency_tracker);
  }

  -- The query of the old data: the kinds that are read without an error.
  unfoldable pub query_old_data : List DataKind → DataMap A → S → DataMap A × S
  unfolding items_map
  query_old_data [] old_data s = (old_data, s)
  query_old_data (kind ∷ kinds) old_data s =
      let ((items, err), s') = store.get_all kind s in
      query_old_data kinds
        (if is_some err then old_data else insert kind (items_map items) old_data) s'

  -- The old data, if there is someone to tell about the changes.
  unfoldable pub old_data_for_listeners : UpdateSink S → Option (DataMap A) × UpdateSink S
  unfolding query_old_data
  old_data_for_listeners d =
      if d.has_listeners
      then (let (old_data, s) = query_old_data all_data_kinds [] d.store in
          (some old_data, record d { store = s }))
      else (none, d)

  -- What Init does once the store has taken the data.
  unfoldable pub announce_changes :
      Option (DataMap A) → List (Collection A) → UpdateSink S → UpdateSink S
  unfolding send_change_events compute_changed_items_for_full_data_set full_data_set_to_map
  announce_changes none all_data d = d
  announce_changes (some old_data) all_data d =
      send_change_events
        (compute_changed_items_for_full_data_set order d.dependency_tracker old_data
          (full_data_set_to_map all_data))
        d

  unfoldable pub init : ℕ → List (Collection A) → UpdateSink S → Bool × UpdateSink S
  unfolding maybe_update_error old_data_for_listeners announce_changes
      update_dependency_tracker_from_full_data_set
  init now all_data d =
      let (old_data, d₁) = old_data_for_listeners d in
      let (err, s) = store.init (sort model order all_data) d₁.store in
      let (updated, d₂) = maybe_update_error now err (record d₁ { store = s }) in
      if updated
      then (
        true,
        announce_changes old_data all_data
            (update_dependency_tracker_from_full_data_set all_data d₂),
      )
      else (false, d₂)

  -- What Upsert does once the store has taken the item.
  unfoldable pub announce_upsert :
      DataKind → String → ItemDescriptor A → UpdateSink S → UpdateSink S
  unfolding send_change_events
  announce_upsert kind key item d =
      let tracker = update_dependencies_from model order kind key item d.dependency_tracker in
      let tracked = record d { dependency_tracker = tracker } in
      if d.has_listeners
      then send_change_events (add_affected_items order tracker [] (new_vertex kind key)) tracked
      else tracked

  unfoldable pub upsert :
      ℕ → DataKind → String → ItemDescriptor A → UpdateSink S → Bool × UpdateSink S
  unfolding maybe_update_error announce_upsert
  upsert now kind key item d =
      let ((updated, err), s) = store.upsert kind key item d.store in
      let (did_not_get_error, d') = maybe_update_error now err (record d { store = s }) in
      (did_not_get_error, if updated then announce_upsert kind key item d' else d')
