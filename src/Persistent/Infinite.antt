-- ===== src/Persistent/Infinite.antt =====
-- The infinite mode of internal/datastore/persistent_data_store_wrapper.go: a cache whose entries never
-- expire takes every write, also one that the store refuses.
use go_server_sdk.Prelude.{
  ℕ, String, pos, ltb_ℤ, Bool, true, false, not, ◌&&◌, ◌||◌, none, some, is_some, List, [], ◌∷◌,
  refl, ap, ◌∙◌, ◌≡◌, if-elim, string_eq, arith, Bool-cases,
}
use go_server_sdk.Types.{DataKind, kind_eq, ItemDescriptor, KeyedItemDescriptor, Collection, Error}
use go_server_sdk.Persistent.Codec.{Serializer, serialize}
use go_server_sdk.Persistent.Cache.{
  Cached, one_item, all_items, GoCache, data_store_cache_key, data_store_all_items_cache_key,
}
use go_server_sdk.Persistent.State.{
  PersistentDataStore, Wrapper, has_infinite_cache, process_error, set_in, flush_in, cache_each,
  cache_items, cache_collections, cache_updated, cache_failed,
}
use go_server_sdk.Persistent.Wrapper.{init_core, serialize_collections, init, cache_upsert, upsert}
use go_server_sdk.Persistent.Reads.{is_some-set_in, is_some-flush_in, process_error-cache}

-- The writes of the cache leave its mode.
pub mode-set_in :
    {A C K : Type 0} (go_cache : GoCache (Cached A) K) (now : ℕ) (k : String) (t : Cached A)
    (w : Wrapper C K)
    → has_infinite_cache (set_in go_cache now k t w) ≡ has_infinite_cache w
mode-set_in go_cache now k t w =
    ap (λ b. b && ltb_ℤ w.cache_ttl (pos 0)) (is_some-set_in go_cache now k t w)

pub mode-process_error :
    {C K : Type 0} (err : Error) (w : Wrapper C K)
    → has_infinite_cache (process_error err w) ≡ has_infinite_cache w
unfolding process_error
mode-process_error none w = refl
mode-process_error (some e) w = refl

pub mode-flush_in :
    {A C K : Type 0} (go_cache : GoCache (Cached A) K) (w : Wrapper C K)
    → has_infinite_cache (flush_in go_cache w) ≡ has_infinite_cache w
mode-flush_in go_cache w = ap (λ b. b && ltb_ℤ w.cache_ttl (pos 0)) (is_some-flush_in go_cache w)

mode-cache_each :
    {A C K : Type 0} (go_cache : GoCache (Cached A) K) (now : ℕ) (k : DataKind)
    (xs : List (KeyedItemDescriptor A)) (w : Wrapper C K)
    → has_infinite_cache (cache_each go_cache now k xs w) ≡ has_infinite_cache w
unfolding cache_each
mode-cache_each go_cache now k [] w = refl
mode-cache_each go_cache now k ((i, x) ∷ xs) w =
    mode-cache_each go_cache now k xs
      (set_in go_cache now (data_store_cache_key k i) (one_item x) w)
    ∙ mode-set_in go_cache now (data_store_cache_key k i) (one_item x) w

mode-cache_collections :
    {A C K : Type 0} (go_cache : GoCache (Cached A) K) (now : ℕ) (colls : List (Collection A))
    (w : Wrapper C K)
    → has_infinite_cache (cache_collections go_cache now colls w) ≡ has_infinite_cache w
unfolding cache_collections cache_items
mode-cache_collections go_cache now [] w = refl
mode-cache_collections {A} {C} {K} go_cache now (coll ∷ colls) w =
    let key = data_store_all_items_cache_key coll.kind in
    let w₁ : Wrapper C K = set_in go_cache now key (all_items coll.items) w in
    mode-cache_collections go_cache now colls (cache_each go_cache now coll.kind coll.items w₁)
    ∙ mode-cache_each go_cache now coll.kind coll.items w₁
    ∙ mode-set_in go_cache now key (all_items coll.items) w

pub cache_of_infinite :
    {C K : Type 0} (w : Wrapper C K) → has_infinite_cache w ≡ true → is_some w.cache ≡ true
cache_of_infinite w h = ground (arith, Bool-cases (is_some w.cache))

module _ {A B C K : Type 0} (kinds : Serializer A B) (store : PersistentDataStore B C)
    (go_cache : GoCache (Cached A) K) where
  pub mode-init_core :
      (colls : List (Collection A)) (w : Wrapper C K)
      → has_infinite_cache (init_core kinds store go_cache colls w).1 ≡ has_infinite_cache w
  unfolding init_core
  mode-init_core colls w =
      let answer : Error × C =
        store.core_init (serialize_collections kinds store go_cache colls) w.core in
      mode-process_error {C = C} {K = K} answer.0 (record w { core = answer.1 })

  -- In the infinite mode, Init fills the cache whatever the store answers.
  pub init_infinite :
      (now : ℕ) (colls : List (Collection A)) (w : Wrapper C K)
      → has_infinite_cache w ≡ true
      → (init kinds store go_cache now colls w).1
        ≡ record (cache_collections go_cache now colls
            (flush_in go_cache (init_core kinds store go_cache colls w).1)) { inited = true }
  unfolding init
  init_infinite now colls w h =
      let reported : Wrapper C K = (init_core kinds store go_cache colls w).1 in
      let flushed : Wrapper C K = flush_in go_cache reported in
      let err = (init_core kinds store go_cache colls w).0 in
      let filled : Wrapper C K = record (cache_collections go_cache now colls flushed) {
        inited = true;
      } in
      let infinite : has_infinite_cache flushed ≡ true =
        mode-flush_in go_cache reported ∙ mode-init_core colls w ∙ h in
      if-elim {A = Error × Wrapper C K} (λ r. r.1 ≡ filled)
        (is_some err && not (has_infinite_cache flushed)) (err, flushed) (err, filled)
        (λ t. ground (arith, t, infinite, Bool-cases (is_some err))) (λ f. refl)

  pub mode-init :
      (now : ℕ) (colls : List (Collection A)) (w : Wrapper C K)
      → has_infinite_cache w ≡ true
      → has_infinite_cache (init kinds store go_cache now colls w).1 ≡ true
  mode-init now colls w h =
      let reported : Wrapper C K = (init_core kinds store go_cache colls w).1 in
      ap has_infinite_cache (init_infinite now colls w h)
      ∙ mode-cache_collections go_cache now colls (flush_in go_cache reported)
      ∙ mode-flush_in go_cache reported
      ∙ mode-init_core colls w
      ∙ h

  -- In the infinite mode, an Upsert that is not ignored goes on with one of two writes of the cache.
  pub upsert_infinite :
      (P : Wrapper C K → Type 0) (now : ℕ) (k : DataKind) (i : String) (x : ItemDescriptor A)
      (w : Wrapper C K)
      → has_infinite_cache w ≡ true
      → ((upsert kinds store go_cache now k i x w).0.0
          || is_some (upsert kinds store go_cache now k i x w).0.1)
        ≡ true
      → ((v : Wrapper C K)
          → has_infinite_cache v ≡ true
          → v.cache ≡ w.cache
          → P (cache_failed go_cache now k i x v) × P (cache_updated go_cache now k i x v))
      → P (upsert kinds store go_cache now k i x w).1
  unfolding upsert cache_upsert
  upsert_infinite P now k i x w h a f =
      let answer = store.core_upsert k i (serialize kinds k x) w.core in
      let w₁ : Wrapper C K = record w { core = answer.1 } in
      let w₂ : Wrapper C K = process_error answer.0.1 w₁ in
      let infinite : has_infinite_cache w₂ ≡ true = mode-process_error answer.0.1 w₁ ∙ h in
      choose answer.0.0 answer.0.1 w₂ a infinite (f w₂ infinite (process_error-cache answer.0.1 w₁))
    where
      choose :
          (updated : Bool) (err : Error) (v : Wrapper C K)
          → (updated || is_some err) ≡ true
          → has_infinite_cache v ≡ true
          → P (cache_failed go_cache now k i x v) × P (cache_updated go_cache now k i x v)
          → P (cache_upsert kinds store go_cache now k i x updated err v)
      choose updated (some e) v a h p =
          if-elim P (has_infinite_cache v) (cache_failed go_cache now k i x v) v (λ t. p.0)
            (λ f. cc (f, h))
      choose true none v a h p =
          if-elim P (not (is_some v.cache)) v (cache_updated go_cache now k i x v)
            (λ t. cc (t, ap not (cache_of_infinite v h))) (λ f. p.1)
      choose false none v a h p = cc a
