-- ===== src/Persistent/Keeps.antt =====
-- The operations of internal/datastore/persistent_data_store_wrapper.go act on the status poller by
-- reports of an outage only.
use go_server_sdk.Prelude.{
  ℕ, String, Bool, true, false, not, ◌&&◌, Option, none, some, is_some, List, [], ◌∷◌, refl, sym,
  ◌∙◌, ◌≡◌, subst, if◌then◌else◌, if-elim, option-elim,
}
use go_server_sdk.Types.{
  DataKind, features, segments, ItemDescriptor, not_found, KeyedItemDescriptor, Collection, Error,
}
use go_server_sdk.Persistent.Codec.{Serializer, serialize}
use go_server_sdk.Persistent.Cache.{
  Cached, init_checked, init_checked_key, one_item, all_items, as_item, as_items, GoCache,
  data_store_cache_key, data_store_all_items_cache_key,
}
use go_server_sdk.Persistent.Poller.{Poller, update_availability}
use go_server_sdk.Persistent.State.{
  PersistentDataStore, Wrapper, has_infinite_cache, process_error, set_in, delete_in, flush_in,
  read_in, cache_each, cache_items, cache_collections, update_list, cache_updated, cache_failed,
  cached_data,
}
use go_server_sdk.Persistent.Wrapper.{
  serialize_collections, init_core, init, get_and_deserialize_item, get_all_and_deserialize, fetch,
  get, fetch_all, get_all, cache_ignored, cache_upsert, upsert, is_initialized,
  poll_availability_after_outage,
}

-- What holds of the poller and of itself after the report of an outage.
pub record Kept (P : Poller → Type 0) : Type 0 where
  pub outage : (m : Poller) → P m → P (update_availability false m)

module _ {C K : Type 0} (P : Poller → Type 0) (kept : Kept P) where
  process_error-keeps :
      (err : Error) (w : Wrapper C K) → P w.poller → P (process_error err w).poller
  unfolding process_error
  process_error-keeps none w h = h
  process_error-keeps (some e) w h = kept.outage w.poller h

module _ {A C K : Type 0} (go_cache : GoCache (Cached A) K) where
  -- The writes of the cache leave the poller.
  cache_each-poller :
      (now : ℕ) (k : DataKind) (xs : List (KeyedItemDescriptor A)) (w : Wrapper C K)
      → (cache_each go_cache now k xs w).poller ≡ w.poller
  unfolding cache_each
  cache_each-poller now k [] w = refl
  cache_each-poller now k ((i, x) ∷ xs) w =
      cache_each-poller now k xs (set_in go_cache now (data_store_cache_key k i) (one_item x) w)

  cache_collections-poller :
      (now : ℕ) (colls : List (Collection A)) (w : Wrapper C K)
      → (cache_collections go_cache now colls w).poller ≡ w.poller
  unfolding cache_collections cache_items
  cache_collections-poller now [] w = refl
  cache_collections-poller now (coll ∷ colls) w =
      let w₁ =
        set_in go_cache now (data_store_all_items_cache_key coll.kind) (all_items coll.items) w in
      cache_collections-poller now colls (cache_each go_cache now coll.kind coll.items w₁)
      ∙ cache_each-poller now coll.kind coll.items w₁

  update_list-poller :
      (now : ℕ) (k : DataKind) (i : String) (x : ItemDescriptor A)
      (items : Option (List (KeyedItemDescriptor A))) (w : Wrapper C K)
      → (update_list go_cache now k i x items w).poller ≡ w.poller
  unfolding update_list
  update_list-poller now k i x none w = refl
  update_list-poller now k i x (some items) w = refl

  cache_updated-poller :
      (now : ℕ) (k : DataKind) (i : String) (x : ItemDescriptor A) (w : Wrapper C K)
      → (cache_updated go_cache now k i x w).poller ≡ w.poller
  unfolding cache_updated
  cache_updated-poller now k i x w =
      let w₁ : Wrapper C K = set_in go_cache now (data_store_cache_key k i) (one_item x) w in
      let list = as_items (read_in go_cache now (data_store_all_items_cache_key k) w₁) in
      if-elim (λ v. v.poller ≡ w.poller) (has_infinite_cache w₁)
        (update_list go_cache now k i x list w₁)
        (delete_in go_cache (data_store_all_items_cache_key k) w₁)
        (λ t. update_list-poller now k i x list w₁) (λ f. refl)

module _ {A B C K : Type 0} (kinds : Serializer A B) (store : PersistentDataStore B C)
    (go_cache : GoCache (Cached A) K) (P : Poller → Type 0) (kept : Kept P) where
  abbrev Reports : Bool × Wrapper C K → Type 0
  Reports r = P r.1.poller

  init_core-keeps :
      (colls : List (Collection A)) (w : Wrapper C K)
      → P w.poller
      → P (init_core kinds store go_cache colls w).1.poller
  unfolding init_core
  init_core-keeps colls w h =
      let answer = store.core_init (serialize_collections kinds store go_cache colls) w.core in
      let w₁ : Wrapper C K = record w { core = answer.1 } in
      process_error-keeps P kept answer.0 w₁ h

  pub init-keeps :
      (now : ℕ) (colls : List (Collection A)) (w : Wrapper C K)
      → P w.poller
      → P (init kinds store go_cache now colls w).1.poller
  unfolding init
  init-keeps now colls w h =
      let reported : Wrapper C K = (init_core kinds store go_cache colls w).1 in
      let flushed : Wrapper C K = flush_in go_cache reported in
      let err = (init_core kinds store go_cache colls w).0 in
      let filled : Wrapper C K = record (cache_collections go_cache now colls flushed) {
        inited = true;
      } in
      let same : P reported.poller = init_core-keeps colls w h in
      if-elim {A = Error × Wrapper C K} (λ r. P r.1.poller)
        (is_some err && not (has_infinite_cache flushed)) (err, flushed) (err, filled) (λ t. same)
        (λ f. subst P (sym (cache_collections-poller go_cache now colls flushed)) same)

  pub fetch-keeps :
      (now : ℕ) (k : DataKind) (i : String) (w : Wrapper C K)
      → P w.poller
      → P (fetch kinds store go_cache now k i w).1.poller
  unfolding fetch get_and_deserialize_item
  fetch-keeps now k i w h =
      let ((item, err), w₁) = get_and_deserialize_item kinds store go_cache k i w in
      let w₂ : Wrapper C K = process_error err w₁ in
      let same : P w₂.poller = process_error-keeps P kept err w₁ h in
      option-elim {A = String} {B = (ItemDescriptor A × Error) × Wrapper C K} (λ r. P r.1.poller)
        err ((item, none), set_in go_cache now (data_store_cache_key k i) (one_item item) w₂)
        (λ e. ((not_found, some e), w₂)) (λ n. same) (λ e s. same)

  pub get-keeps :
      (now : ℕ) (k : DataKind) (i : String) (w : Wrapper C K)
      → P w.poller
      → P (get kinds store go_cache now k i w).1.poller
  unfolding get get_and_deserialize_item
  get-keeps now k i w h =
      let ((item, err), w₁) = get_and_deserialize_item kinds store go_cache k i w in
      let fetched = fetch kinds store go_cache now k i w in
      option-elim {A = K} {B = (ItemDescriptor A × Error) × Wrapper C K} (λ r. P r.1.poller) w.cache
        ((item, err), process_error err w₁)
        (λ s. elim (as_item (go_cache.cache_get now (data_store_cache_key k i) s)) [
          | some x ↦ ((x, none), w)
          | none ↦ fetched
        ])
        (λ n. process_error-keeps P kept err w₁ h)
        (λ s e.
          option-elim {A = ItemDescriptor A} {B = (ItemDescriptor A × Error) × Wrapper C K}
            (λ r. P r.1.poller) (as_item (go_cache.cache_get now (data_store_cache_key k i) s))
            fetched (λ x. ((x, none), w)) (λ n. fetch-keeps now k i w h) (λ x s. h))

  fetch_all-keeps :
      (now : ℕ) (k : DataKind) (w : Wrapper C K)
      → P w.poller
      → P (fetch_all kinds store go_cache now k w).1.poller
  unfolding fetch_all get_all_and_deserialize
  fetch_all-keeps now k w h =
      let ((items, err), w₁) = get_all_and_deserialize kinds store go_cache k w in
      let w₂ : Wrapper C K = process_error err w₁ in
      let same : P w₂.poller = process_error-keeps P kept err w₁ h in
      option-elim {A = String} {B = (List (KeyedItemDescriptor A) × Error) × Wrapper C K}
        (λ r. P r.1.poller) err
        ((items, none), set_in go_cache now (data_store_all_items_cache_key k) (all_items items) w₂)
        (λ e. (([], some e), w₂)) (λ n. same) (λ e s. same)

  pub get_all-keeps :
      (now : ℕ) (k : DataKind) (w : Wrapper C K)
      → P w.poller
      → P (get_all kinds store go_cache now k w).1.poller
  unfolding get_all get_all_and_deserialize
  get_all-keeps now k w h =
      let ((items, err), w₁) = get_all_and_deserialize kinds store go_cache k w in
      let fetched = fetch_all kinds store go_cache now k w in
      option-elim {A = K} {B = (List (KeyedItemDescriptor A) × Error) × Wrapper C K}
        (λ r. P r.1.poller) w.cache ((items, err), process_error err w₁)
        (λ s. elim (as_items (go_cache.cache_get now (data_store_all_items_cache_key k) s)) [
          | some xs ↦ ((xs, none), w)
          | none ↦ fetched
        ])
        (λ n. process_error-keeps P kept err w₁ h)
        (λ s e.
          option-elim {A = List (KeyedItemDescriptor A)}
            {B = (List (KeyedItemDescriptor A) × Error) × Wrapper C K} (λ r. P r.1.poller)
            (as_items (go_cache.cache_get now (data_store_all_items_cache_key k) s)) fetched
            (λ xs. ((xs, none), w)) (λ n. fetch_all-keeps now k w h) (λ xs s. h))

  cache_upsert-keeps :
      (now : ℕ) (k : DataKind) (i : String) (x : ItemDescriptor A) (updated : Bool) (err : Error)
      (w : Wrapper C K)
      → P w.poller
      → P (cache_upsert kinds store go_cache now k i x updated err w).poller
  unfolding cache_upsert cache_failed cache_ignored
  cache_upsert-keeps now k i x updated (some e) w h =
      if-elim {A = Wrapper C K} (λ v. P v.poller) (has_infinite_cache w)
        (cache_failed go_cache now k i x w) w (λ t. h) (λ f. h)
  cache_upsert-keeps now k i x updated none w h =
      let taken = cache_updated go_cache now k i x w in
      let ignored = cache_ignored kinds store go_cache now k i w in
      let w₁ : Wrapper C K = delete_in go_cache (data_store_cache_key k i) w in
      if-elim {A = Wrapper C K} (λ v. P v.poller) (not (is_some w.cache)) w
        (if updated then taken else ignored) (λ t. h)
        (λ f.
          if-elim {A = Wrapper C K} (λ v. P v.poller) updated taken ignored
            (λ t. subst P (sym (cache_updated-poller go_cache now k i x w)) h)
            (λ f. get-keeps now k i (delete_in go_cache (data_store_all_items_cache_key k) w₁) h))

  pub upsert-keeps :
      (now : ℕ) (k : DataKind) (i : String) (x : ItemDescriptor A) (w : Wrapper C K)
      → P w.poller
      → P (upsert kinds store go_cache now k i x w).1.poller
  unfolding upsert
  upsert-keeps now k i x w h =
      let answer = store.core_upsert k i (serialize kinds k x) w.core in
      let w₁ : Wrapper C K = record w { core = answer.1 } in
      cache_upsert-keeps now k i x answer.0.0 answer.0.1 (process_error answer.0.1 w₁)
        (process_error-keeps P kept answer.0.1 w₁ h)

  pub is_initialized-keeps :
      (now : ℕ) (w : Wrapper C K)
      → P w.poller
      → P (is_initialized kinds store go_cache now w).1.poller
  unfolding is_initialized
  is_initialized-keeps now w h =
      let (new_value, core) = store.core_is_initialized w.core in
      let w₁ : Wrapper C K = record w { core = core } in
      let yes_now : Wrapper C K =
        delete_in go_cache init_checked_key (record w₁ { inited = true }) in
      let not_yet : Wrapper C K = set_in go_cache now init_checked_key init_checked w₁ in
      let asked = if new_value then (true, yes_now) else (false, not_yet) in
      let checked = is_some (read_in go_cache now init_checked_key w) in
      if-elim Reports w.inited (true, w) (if checked then (false, w) else asked) (λ t. h)
        (λ f.
          if-elim Reports checked (false, w) asked (λ t. h)
            (λ f. if-elim Reports new_value (true, yes_now) (false, not_yet) (λ t. h) (λ f. h)))

  pub poll_availability_after_outage-keeps :
      (now : ℕ) (w : Wrapper C K)
      → P w.poller
      → P (poll_availability_after_outage kinds store go_cache now w).1.poller
  unfolding poll_availability_after_outage
  poll_availability_after_outage-keeps now w h =
      let (available, core) = store.is_store_available w.core in
      let w₁ : Wrapper C K = record w { core = core } in
      let kinds_cached = cached_data go_cache now (features ∷ segments ∷ []) w₁ in
      let rewritten = (init_core kinds store go_cache kinds_cached w₁).1 in
      let infinite = has_infinite_cache w₁ in
      if-elim Reports (not available) (false, w₁)
        (if infinite then (true, rewritten) else (true, w₁)) (λ t. h)
        (λ f.
          if-elim Reports infinite (true, rewritten) (true, w₁)
            (λ t. init_core-keeps kinds_cached w₁ h) (λ f. h))
