-- ===== src/Persistent/Cache.antt =====
-- The cache of the wrapper: the library go-cache, of which the wrapper uses five operations, and the
-- keys under which the wrapper keeps its entries.
use go_server_sdk.Prelude.{
  ℕ, String, string_eq, Option, none, some, List, ◌⧺◌, ◌==◌, ◌≡◌, if◌then◌else◌,
}
use go_server_sdk.Types.{DataKind, get_name, ItemDescriptor, KeyedItemDescriptor}

-- What the wrapper caches, by the type that it asserts when it reads an entry.
pub data Cached (A : Type 0) : Type 0 where
  one_item : ItemDescriptor A → Cached A
  all_items : List (KeyedItemDescriptor A) → Cached A
  init_checked : Cached A

abbrev pub as_item : {A : Type 0} → Option (Cached A) → Option (ItemDescriptor A)
as_item (some (one_item i)) = some i
as_item _ = none

abbrev pub as_items : {A : Type 0} → Option (Cached A) → Option (List (KeyedItemDescriptor A))
as_items (some (all_items l)) = some l
as_items _ = none

-- A cache's state is a `K`. Reads and writes are given the time.
pub record GoCache (T K : Type 0) : Type 0 where
  pub cache_get : ℕ → String → K → Option T
  pub cache_set : ℕ → String → T → K → K
  pub cache_delete : String → K → K
  pub cache_flush : K → K

-- Its documented behaviour, with the default expiration. An entry that has just been set is there; an
-- entry can only vanish with time.
pub record CacheLaws {T K : Type 0} (cache : GoCache T K) : Type 0 where
  pub get_set :
      (now : ℕ) (k j : String) (t : T) (s : K)
      → cache.cache_get now j (cache.cache_set now k t s)
        ≡ (if k == j then some t else cache.cache_get now j s)
  pub get_delete :
      (now : ℕ) (k j : String) (s : K)
      → cache.cache_get now j (cache.cache_delete k s)
        ≡ (if k == j then none else cache.cache_get now j s)
  pub get_flush :
      (now : ℕ) (j : String) (s : K) → cache.cache_get now j (cache.cache_flush s) ≡ none

-- With a negative expiration the entries never expire.
pub record NeverExpires {T K : Type 0} (cache : GoCache T K) : Type 0 where
  pub get_later :
      (now later : ℕ) (j : String) (s : K) → cache.cache_get later j s ≡ cache.cache_get now j s

abbrev pub init_checked_key : String
init_checked_key = "$initChecked"

abbrev pub data_store_cache_key : DataKind → String → String
data_store_cache_key kind key = (get_name kind ⧺ ":") ⧺ key

abbrev pub data_store_all_items_cache_key : DataKind → String
data_store_all_items_cache_key kind = "all:" ⧺ get_name kind
