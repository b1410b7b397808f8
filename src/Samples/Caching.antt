-- ===== src/Samples/Caching.antt =====
-- A persistent store that can be down, with a cache that never expires.
use go_server_sdk.Prelude.{
  String, string_eq, ℤ, pos, negsuc, Bool, true, false, not, List, [], ◌∷◌, none, some, ◌≡◌, refl,
  inl, inr, Map, lookup, insert, delete, lookup-insert, lookup-delete, map, keys,
}
use go_server_sdk.Types.{DataKind, get_name, features, segments, ItemDescriptor, not_found}
use go_server_sdk.Persistent.Codec.{
  SerializedCollection, Serializer, ItemModel, serialize_item, data_kinds, serialize, serialize_all,
  deserialize,
}
use go_server_sdk.Persistent.RoundTrip.{Faithful, sdk-deserialize-serialize}
use go_server_sdk.Persistent.Poller.{
  new_data_store_update_sink, update_availability, close_poller, update_status,
  new_data_store_status_poller,
}
use go_server_sdk.Persistent.Watch.{IsWatched, IsRecovered}
use go_server_sdk.Persistent.Cache.{Cached, GoCache, CacheLaws, NeverExpires}
use go_server_sdk.Persistent.State.{
  cache_failed, PersistentDataStore, Wrapper, new_persistent_data_store_wrapper,
}
use go_server_sdk.Persistent.Wrapper.{cache_ignored, init, get, upsert, close, poll}
use go_server_sdk.Persistent.Writes.{
  Write, write_init, write_upsert, apply_write, apply_writes, get-apply_writes,
}
use go_server_sdk.Persistent.Failed.{IsNoNewer, apply_write-IsNoNewer}
use go_server_sdk.Persistent.Polling.{
  Reaches, here, next, step_init, Reaches-new-IsWatched, poll_recovers,
}
use go_server_sdk.Samples.{Item, flag, full_data}

-- The model's payloads are versions with a mark for deleted ones.
abbrev Payload : Type 0
Payload = ℤ × Bool

abbrev payloads : ItemModel Payload Payload Payload
payloads = record {
  unwrap = some;
  wrap = λ t. t;
  placeholder = λ v. (v, true);
  item_version = λ t. t.0;
  is_deleted = λ t. t.1;
  marshal = some;
  unmarshal = inl;
}

payloads-Faithful : Faithful payloads
payloads-Faithful = record {
  reads_back = λ t b e. cc e;
  rewraps = λ a t e. cc e;
  version_of_placeholder = λ v. refl;
  deleted_placeholder = λ v. refl;
}

abbrev no_kinds : {A B : Type 0} → Serializer A B
no_kinds = record { serialize_kind = λ k x. none; deserialize_kind = λ k b. (not_found, none) }

abbrev live_payload : ItemDescriptor Payload
live_payload = record { version = pos 7; item = some (pos 7, false) }

sdk-deserialize-serialize_example :
    deserialize
      (data_kinds payloads payloads no_kinds)
      features
      (serialize (data_kinds payloads payloads no_kinds) features live_payload)
    ≡ (live_payload, none)
unfolding serialize serialize_item
sdk-deserialize-serialize_example =
    sdk-deserialize-serialize payloads payloads no_kinds payloads-Faithful payloads-Faithful
      features live_payload (pos 7, false)
      (inr (
        (pos 7, false),
        record {
          payload = (pos 7, false);
          present = refl;
          unwraps = refl;
          live = refl;
          same_version = refl;
        },
      ))
      refl

-- Whether the store is up, whether it ignores updates and fails to be written, and its data.
pub record Disk : Type 0 where
  pub up : Bool
  pub ignores : Bool
  pub written : List (SerializedCollection Item)

abbrev disk_kinds : Serializer Item Item
disk_kinds = record {
  serialize_kind = λ k x. x.item;
  deserialize_kind = λ k b. (record { version = pos 0; item = some b }, none);
}

abbrev disk : PersistentDataStore Item Disk
disk = record {
  core_init = λ data_set d. elim d.up [
    | true ↦ (none, record d { written = data_set })
    | false ↦ (some "down", d)
  ];
  core_get =
      λ k i d. ((record { version = pos 0; deleted = true; serialized_item = none }, none), d);
  core_get_all = λ k d. (([], none), d);
  core_upsert = λ k i x d. elim d.up [
    | true ↦ ((not d.ignores, none), d)
    | false ↦ ((false, some "down"), d)
  ];
  core_is_initialized = λ d. (true, d);
  is_store_available = λ d. (true, d);
  core_close = λ d. (none, d);
}

abbrev Memo : Type 0
Memo = Map String (Cached Item)

abbrev memo : GoCache (Cached Item) Memo
memo = record {
  cache_get = λ now k m. lookup k m;
  cache_set = λ now k t m. insert k t m;
  cache_delete = λ k m. delete k m;
  cache_flush = λ m. [];
}

memo-CacheLaws : CacheLaws memo
unfolding lookup
memo-CacheLaws = record {
  get_set = λ now k j t m. lookup-insert k j t m;
  get_delete = λ now k j m. lookup-delete k j m;
  get_flush = λ now j m. refl;
}

memo-NeverExpires : NeverExpires memo
memo-NeverExpires = record { get_later = λ now later j m. refl }

abbrev down_disk : Disk
down_disk = record { up = false; ignores = false; written = [] }

-- The cache is infinite for a negative time, and finite for a positive one.
abbrev start : ℤ → Wrapper Disk Memo
start ttl = new_persistent_data_store_wrapper down_disk new_data_store_update_sink ttl []

abbrev writes : List (Write Item)
writes = write_init 1 full_data ∷ write_upsert 2 features "c" (flag 5 []) ∷ []

get-apply_writes_example :
    get disk_kinds disk memo 9 features "a"
      (apply_writes disk_kinds disk memo writes (start (negsuc 0)))
    ≡ ((flag 1 [], none), apply_writes disk_kinds disk memo writes (start (negsuc 0)))
unfolding new_persistent_data_store_wrapper init upsert
get-apply_writes_example =
    get-apply_writes disk_kinds disk memo memo-CacheLaws memo-NeverExpires 9 writes features "a"
      (flag 1 []) (start (negsuc 0)) refl (tt, (refl, tt)) ((tt, (tt, tt)), (tt, tt)) tt refl

apply_write-IsNoNewer_example :
    IsNoNewer disk_kinds disk memo
      (start (pos 30))
      (apply_write disk_kinds disk memo (write_init 1 full_data) (start (pos 30)))
unfolding new_persistent_data_store_wrapper init
apply_write-IsNoNewer_example =
    apply_write-IsNoNewer disk_kinds disk memo memo-CacheLaws (write_init 1 full_data)
      (start (pos 30)) "down" refl refl

-- The Init fails, the outage begins, and a goroutine polls.
abbrev outage : Wrapper Disk Memo
outage = (init disk_kinds disk memo 1 full_data (start (negsuc 0))).1

Reaches-outage : Reaches disk_kinds disk memo (start (negsuc 0)) outage
Reaches-outage = next (here _) (step_init 1 full_data (start (negsuc 0)))

Reaches-new-IsWatched_example : IsWatched outage.poller
Reaches-new-IsWatched_example =
    Reaches-new-IsWatched disk_kinds disk memo down_disk new_data_store_update_sink (negsuc 0) []
      outage Reaches-outage

-- The store says that it is available, and cannot be written: the cached data does not reach it.
poll_recovers_example :
    IsRecovered outage.poller.refresh_on_recovery (poll disk_kinds disk memo 0 2 outage).poller
unfolding init new_persistent_data_store_wrapper update_availability new_data_store_status_poller
poll_recovers_example =
    poll_recovers disk_kinds disk memo 0 2 outage
      (Reaches-new-IsWatched disk_kinds disk memo down_disk new_data_store_update_sink (negsuc 0) []
        outage Reaches-outage)
      refl refl

unwritten :
    ((poll disk_kinds disk memo 0 2 outage).core.written ≡ [])
    × ((poll disk_kinds disk memo 0 2 outage).poller.updates.last_status
        ≡ record { available = true; needs_refresh = false })
unfolding poll init new_persistent_data_store_wrapper new_data_store_update_sink update_availability
    new_data_store_status_poller update_status
unwritten = (refl, refl)

-- An Upsert of "a" is ignored, then one of "b" fails: of all flags the cache lists "b" only, and the
-- recovery writes this list to the store.
abbrev up_disk : Bool → Disk
up_disk ignores = record { up = true; ignores = ignores; written = [] }

abbrev ignored : Wrapper Disk Memo
ignored =
    (upsert disk_kinds disk memo 2 features "a" (flag 0 [])
      (record (init disk_kinds disk memo 1 full_data
        (record (start (negsuc 0)) { core = up_disk false })).1 { core = up_disk true })).1

abbrev partly_cached : Wrapper Disk Memo
partly_cached =
    (upsert disk_kinds disk memo 3 features "b" (flag 9 []) (record ignored { core = down_disk })).1

rewritten :
    map {B = DataKind × List String}
      (λ coll. (coll.kind, keys coll.items))
      (poll disk_kinds disk memo 0 4 (record partly_cached { core = up_disk false })).core.written
    ≡ (features, "b" ∷ []) ∷ (segments, []) ∷ []
unfolding poll init upsert new_persistent_data_store_wrapper new_data_store_update_sink
    update_availability new_data_store_status_poller update_status lookup insert delete
    cache_ignored get_name deserialize cache_failed serialize_all
rewritten = refl

-- After Close, a failing call starts a goroutine, and no call of Close ends it.
abbrev left_over : Wrapper Disk Memo
left_over =
    (close disk_kinds disk memo
      (init disk_kinds disk memo 1 full_data (close disk_kinds disk memo (start (negsuc 0))).1).1).1

polling_after_close : (left_over.poller.running ≡ 0 ∷ []) × (left_over.poller.closed ≡ [])
unfolding close init new_persistent_data_store_wrapper close_poller update_availability
    new_data_store_status_poller
polling_after_close = (refl, refl)
