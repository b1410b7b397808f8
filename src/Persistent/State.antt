-- ===== src/Persistent/State.antt =====
-- internal/datastore/persistent_data_store_wrapper.go: the wrapper's state, and how it writes its cache. The
-- interface PersistentDataStore is that of subsystems/persistent_data_store.go.
use go_server_sdk.Prelude.{
  ℕ, String, ℤ, pos, ltb_ℤ, eqb_ℤ, Bool, true, false, ◌&&◌, ◌||◌, Option, none, some, is_some,
  or_else, List, [], ◌∷◌, ◌++◌, if◌then◌else◌, string_eq, ◌==◌,
}
use go_server_sdk.Types.{DataKind, ItemDescriptor, KeyedItemDescriptor, Collection, Error}
use go_server_sdk.Persistent.Codec.{
  SerializedItemDescriptor, KeyedSerializedItemDescriptor, SerializedCollection,
}
use go_server_sdk.Persistent.Poller.{
  Poller, DataStoreUpdateSink, new_data_store_status_poller, update_availability,
}
use go_server_sdk.Persistent.Cache.{
  Cached, one_item, all_items, as_items, GoCache, data_store_cache_key,
  data_store_all_items_cache_key,
}

-- The interface PersistentDataStore over the implementation's state `C`.
pub record PersistentDataStore (B C : Type 0) : Type 0 where
  pub core_init : List (SerializedCollection B) → C → Error × C
  pub core_get : DataKind → String → C → (SerializedItemDescriptor B × Error) × C
  pub core_get_all : DataKind → C → (List (KeyedSerializedItemDescriptor B) × Error) × C
  pub core_upsert : DataKind → String → SerializedItemDescriptor B → C → (Bool × Error) × C
  pub core_is_initialized : C → Bool × C
  pub is_store_available : C → Bool × C
  pub core_close : C → Error × C

-- The cache is nil if its TTL is zero.
pub record Wrapper (C K : Type 0) : Type 0 where
  pub core : C
  pub cache : Option K
  pub cache_ttl : ℤ
  pub inited : Bool
  pub poller : Poller

-- The constructor; `empty` is the cache that go-cache makes for the TTL.
unfoldable pub new_persistent_data_store_wrapper :
    {C K : Type 0} → C → DataStoreUpdateSink → ℤ → K → Wrapper C K
new_persistent_data_store_wrapper core updates cache_ttl empty =
    let no_cache = eqb_ℤ cache_ttl (pos 0) in
    record {
      core = core;
      cache = if no_cache then none else some empty;
      cache_ttl = cache_ttl;
      inited = false;
      poller = new_data_store_status_poller true updates (no_cache || ltb_ℤ (pos 0) cache_ttl);
    }

abbrev pub has_infinite_cache : {C K : Type 0} → Wrapper C K → Bool
has_infinite_cache w = is_some w.cache && ltb_ℤ w.cache_ttl (pos 0)

unfoldable pub process_error : {C K : Type 0} → Error → Wrapper C K → Wrapper C K
process_error none w = w
process_error (some _) w = record w { poller = update_availability false w.poller }

-- The loop of updateSingleItem, and what it appends.
unfoldable pub replace_items :
    {A : Type 0}
    → String
    → ItemDescriptor A
    → List (KeyedItemDescriptor A)
    → List (KeyedItemDescriptor A) × Bool
replace_items key new_item [] = ([], false)
replace_items key new_item ((k, item) ∷ items) =
    let (ret, found) = replace_items key new_item items in
    if k == key then ((key, new_item) ∷ ret, true) else ((k, item) ∷ ret, found)

unfoldable pub update_single_item :
    {A : Type 0}
    → List (KeyedItemDescriptor A)
    → String
    → ItemDescriptor A
    → List (KeyedItemDescriptor A)
unfolding replace_items
update_single_item items key new_item =
    let (ret, found) = replace_items key new_item items in
    if found then ret else ret ++ (key, new_item) ∷ []

module _ {A C K : Type 0} (go_cache : GoCache (Cached A) K) where
  -- The operations of a cache that is not nil.
  abbrev pub set_in : ℕ → String → Cached A → Wrapper C K → Wrapper C K
  set_in now key t w = record w {
    cache = elim w.cache [ none ↦ none | some s ↦ some (go_cache.cache_set now key t s) ];
  }

  abbrev pub delete_in : String → Wrapper C K → Wrapper C K
  delete_in key w = record w {
    cache = elim w.cache [ none ↦ none | some s ↦ some (go_cache.cache_delete key s) ];
  }

  abbrev pub flush_in : Wrapper C K → Wrapper C K
  flush_in w = record w {
    cache = elim w.cache [ none ↦ none | some s ↦ some (go_cache.cache_flush s) ];
  }

  abbrev pub read_in : ℕ → String → Wrapper C K → Option (Cached A)
  read_in now key w = elim w.cache [ none ↦ none | some s ↦ go_cache.cache_get now key s ]

  -- The loop of cacheItems over the single items.
  unfoldable pub cache_each :
      ℕ → DataKind → List (KeyedItemDescriptor A) → Wrapper C K → Wrapper C K
  cache_each now kind [] w = w
  cache_each now kind ((key, item) ∷ items) w =
      cache_each now kind items (set_in now (data_store_cache_key kind key) (one_item item) w)

  unfoldable pub cache_items :
      ℕ → DataKind → List (KeyedItemDescriptor A) → Wrapper C K → Wrapper C K
  unfolding cache_each
  cache_items now kind items w =
      cache_each now kind items
        (set_in now (data_store_all_items_cache_key kind) (all_items items) w)

  unfoldable pub cache_collections : ℕ → List (Collection A) → Wrapper C K → Wrapper C K
  unfolding cache_items
  cache_collections now [] w = w
  cache_collections now (coll ∷ colls) w =
      cache_collections now colls (cache_items now coll.kind coll.items w)

  -- The update of a cached list, if there is one.
  unfoldable pub update_list :
      ℕ
      → DataKind
      → String
      → ItemDescriptor A
      → Option (List (KeyedItemDescriptor A))
      → Wrapper C K
      → Wrapper C K
  unfolding update_single_item
  update_list now kind key new_item none w = w
  update_list now kind key new_item (some items) w =
      set_in now (data_store_all_items_cache_key kind)
        (all_items (update_single_item items key new_item)) w

  -- The cache after an update that the store has taken.
  unfoldable pub cache_updated :
      ℕ → DataKind → String → ItemDescriptor A → Wrapper C K → Wrapper C K
  unfolding update_list
  cache_updated now kind key new_item w =
      let all_key = data_store_all_items_cache_key kind in
      let w₁ = set_in now (data_store_cache_key kind key) (one_item new_item) w in
      if has_infinite_cache w₁
      then update_list now kind key new_item (as_items (read_in now all_key w₁)) w₁
      else delete_in all_key w₁

  -- The infinite cache after an update that failed.
  unfoldable pub cache_failed : ℕ → DataKind → String → ItemDescriptor A → Wrapper C K → Wrapper C K
  unfolding update_single_item
  cache_failed now kind key new_item w =
      let all_key = data_store_all_items_cache_key kind in
      let w₁ = set_in now (data_store_cache_key kind key) (one_item new_item) w in
      let cached = or_else (as_items (read_in now all_key w₁)) [] in
      set_in now all_key (all_items (update_single_item cached key new_item)) w₁

  -- The cached lists of the given kinds.
  unfoldable pub cached_data : ℕ → List DataKind → Wrapper C K → List (Collection A)
  cached_data now [] w = []
  cached_data now (kind ∷ ks) w =
      let rest = cached_data now ks w in
      elim (as_items (read_in now (data_store_all_items_cache_key kind) w)) [
        | none ↦ rest
        | some items ↦ record { kind = kind; items = items } ∷ rest
      ]
