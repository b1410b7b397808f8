-- ===== src/Persistent/Wrapper.antt =====
-- internal/datastore/persistent_data_store_wrapper.go: the wrapper's operations. A call of singleflight's
-- Do runs its function; callers that join a running call share its answer and are not told apart here.
-- Logging is left out.
use go_server_sdk.Prelude.{
  ℕ, String, Bool, true, false, not, ◌&&◌, none, some, is_some, List, [], ◌∷◌, map, if◌then◌else◌,
  member, string_eq,
}
use go_server_sdk.Types.{
  DataKind, features, segments, ItemDescriptor, not_found, KeyedItemDescriptor, Collection, Error,
}
use go_server_sdk.Persistent.Codec.{
  SerializedCollection, Serializer, serialize, serialize_all, deserialize, deserialize_all,
}
use go_server_sdk.Persistent.Poller.{update_availability, close_poller, returns}
use go_server_sdk.Persistent.Cache.{
  Cached, one_item, all_items, init_checked, as_item, as_items, GoCache, init_checked_key,
  data_store_cache_key, data_store_all_items_cache_key,
}
use go_server_sdk.Persistent.State.{
  PersistentDataStore, Wrapper, has_infinite_cache, process_error, set_in, delete_in, flush_in,
  read_in, cache_collections, cache_updated, cache_failed, cached_data,
}

module _ {A B C K : Type 0} (kinds : Serializer A B) (store : PersistentDataStore B C)
    (go_cache : GoCache (Cached A) K) where
  -- The loop of initCore.
  abbrev pub serialize_collections : List (Collection A) → List (SerializedCollection B)
  serialize_collections all_data =
      map (λ coll. record { kind = coll.kind; items = serialize_all kinds coll.kind coll.items })
        all_data

  unfoldable pub init_core : List (Collection A) → Wrapper C K → Error × Wrapper C K
  unfolding process_error
  init_core all_data w =
      let (err, core) = store.core_init (serialize_collections all_data) w.core in
      (err, process_error err (record w { core = core }))

  unfoldable pub init : ℕ → List (Collection A) → Wrapper C K → Error × Wrapper C K
  unfolding init_core cache_collections
  init now all_data w =
      let (err, w₁) = init_core all_data w in
      let w₂ = flush_in go_cache w₁ in
      if is_some err && not (has_infinite_cache w₂)
      then (err, w₂)
      else (err, record (cache_collections go_cache now all_data w₂) { inited = true })

  unfoldable pub get_and_deserialize_item :
      DataKind → String → Wrapper C K → (ItemDescriptor A × Error) × Wrapper C K
  get_and_deserialize_item kind key w =
      let ((item, err), core) = store.core_get kind key w.core in
      (
        elim err [ some e ↦ (not_found, some e) | none ↦ deserialize kinds kind item ],
        record w { core = core },
      )

  unfoldable pub get_all_and_deserialize :
      DataKind → Wrapper C K → (List (KeyedItemDescriptor A) × Error) × Wrapper C K
  get_all_and_deserialize kind w =
      let ((items, err), core) = store.core_get_all kind w.core in
      (
        elim err [ some e ↦ ([], some e) | none ↦ deserialize_all kinds kind items ],
        record w { core = core },
      )

  -- The query of the store, which fills the cache.
  unfoldable pub fetch :
      ℕ → DataKind → String → Wrapper C K → (ItemDescriptor A × Error) × Wrapper C K
  unfolding get_and_deserialize_item process_error
  fetch now kind key w =
      let ((item, err), w₁) = get_and_deserialize_item kind key w in
      let w₂ = process_error err w₁ in
      elim err [
        | none ↦
            ((item, none), set_in go_cache now (data_store_cache_key kind key) (one_item item) w₂)
        | some e ↦ ((not_found, some e), w₂)
      ]

  unfoldable pub get :
      ℕ → DataKind → String → Wrapper C K → (ItemDescriptor A × Error) × Wrapper C K
  unfolding fetch get_and_deserialize_item process_error
  get now kind key w = elim w.cache [
    | none ↦
        (let ((item, err), w₁) = get_and_deserialize_item kind key w in
          ((item, err), process_error err w₁))
    | some s ↦ elim (as_item (go_cache.cache_get now (data_store_cache_key kind key) s)) [
      | some item ↦ ((item, none), w)
      | none ↦ fetch now kind key w
    ]
  ]

  unfoldable pub fetch_all :
      ℕ → DataKind → Wrapper C K → (List (KeyedItemDescriptor A) × Error) × Wrapper C K
  unfolding get_all_and_deserialize process_error
  fetch_all now kind w =
      let ((items, err), w₁) = get_all_and_deserialize kind w in
      let w₂ = process_error err w₁ in
      elim err [
        | none ↦ (
          (items, none),
          set_in go_cache now (data_store_all_items_cache_key kind) (all_items items) w₂,
        )
        | some e ↦ (([], some e), w₂)
      ]

  unfoldable pub get_all :
      ℕ → DataKind → Wrapper C K → (List (KeyedItemDescriptor A) × Error) × Wrapper C K
  unfolding fetch_all get_all_and_deserialize process_error
  get_all now kind w = elim w.cache [
    | none ↦
        (let ((items, err), w₁) = get_all_and_deserialize kind w in
          ((items, err), process_error err w₁))
    | some s ↦ elim (as_items (go_cache.cache_get now (data_store_all_items_cache_key kind) s)) [
      | some items ↦ ((items, none), w)
      | none ↦ fetch_all now kind w
    ]
  ]

  -- The cache after an update that the store has ignored: an item of that version or a later one is there.
  unfoldable pub cache_ignored : ℕ → DataKind → String → Wrapper C K → Wrapper C K
  unfolding get
  cache_ignored now kind key w =
      (get now kind key (
        delete_in go_cache (data_store_all_items_cache_key kind)
          (delete_in go_cache (data_store_cache_key kind key) w))).1

  -- What Upsert does to the cache after the store has answered.
  unfoldable pub cache_upsert :
      ℕ → DataKind → String → ItemDescriptor A → Bool → Error → Wrapper C K → Wrapper C K
  cache_upsert now kind key new_item updated (some _) w =
      if has_infinite_cache w then cache_failed go_cache now kind key new_item w else w
  cache_upsert now kind key new_item updated none w =
      if not (is_some w.cache)
      then w
      else if updated
      then cache_updated go_cache now kind key new_item w
      else cache_ignored now kind key w

  unfoldable pub upsert :
      ℕ → DataKind → String → ItemDescriptor A → Wrapper C K → (Bool × Error) × Wrapper C K
  unfolding cache_upsert process_error serialize
  upsert now kind key new_item w =
      let ((updated, err), core) =
        store.core_upsert kind key (serialize kinds kind new_item) w.core in
      (
        (updated, err),
        cache_upsert now kind key new_item updated err
            (process_error err (record w { core = core })),
      )

  unfoldable pub is_initialized : ℕ → Wrapper C K → Bool × Wrapper C K
  is_initialized now w =
      if w.inited
      then (true, w)
      else if is_some (read_in go_cache now init_checked_key w)
      then (false, w)
      else (let (new_value, core) = store.core_is_initialized w.core in
          let w₁ : Wrapper C K = record w { core = core } in
          if new_value
          then (true, delete_in go_cache init_checked_key (record w₁ { inited = true }))
          else (false, set_in go_cache now init_checked_key init_checked w₁))

  unfoldable pub close : Wrapper C K → Error × Wrapper C K
  close w =
      let (err, core) = store.core_close w.core in
      (err, record w { poller = close_poller w.poller; core = core })

  unfoldable pub poll_availability_after_outage : ℕ → Wrapper C K → Bool × Wrapper C K
  unfolding cached_data init_core
  poll_availability_after_outage now w =
      let (available, core) = store.is_store_available w.core in
      let w₁ : Wrapper C K = record w { core = core } in
      if not available
      then (false, w₁)
      else if has_infinite_cache w₁
      then (true, (init_core (cached_data go_cache now (features ∷ segments ∷ []) w₁) w₁).1)
      else (true, w₁)

  -- A tick of the polling goroutine `c`, if it runs.
  unfoldable pub poll : ℕ → ℕ → Wrapper C K → Wrapper C K
  unfolding poll_availability_after_outage
  poll c now w =
      if member c w.poller.running
      then (let (available, w₁) = poll_availability_after_outage now w in
          if available
          then record w₁ { poller = returns c (update_availability true w₁.poller) }
          else w₁)
      else w
