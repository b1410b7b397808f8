-- ===== src/Persistent/Latest.antt =====
-- In the infinite mode of internal/datastore/persistent_data_store_wrapper.go, what is read is what was
-- written last.
use go_server_sdk.Prelude.{
  ℕ, String, true, ◌&&◌, ◌||◌, Option, none, some, is_some, List, [], refl, subst, ap, ◌∙◌, ◌≡◌,
  if◌then◌else◌, if-elim, string_eq, ◌==◌, first_some, first_some-none, or_else,
}
use go_server_sdk.Types.{DataKind, kind_eq, ItemDescriptor, KeyedItemDescriptor, Collection}
use go_server_sdk.Persistent.Codec.{Serializer}
use go_server_sdk.Persistent.Cache.{
  Cached, one_item, all_items, as_item, as_items, GoCache, CacheLaws, NeverExpires,
  data_store_cache_key, data_store_all_items_cache_key,
}
use go_server_sdk.Persistent.Keys.{IsSdkKind}
use go_server_sdk.Persistent.State.{
  PersistentDataStore, Wrapper, has_infinite_cache, set_in, flush_in, read_in, cache_updated,
  cache_failed, update_single_item, update_list, delete_in,
}
use go_server_sdk.Persistent.Wrapper.{init_core, init, upsert}
use go_server_sdk.Persistent.Reads.{read-flush, is_some-set_in}
use go_server_sdk.Persistent.Entries.{
  cached_item, written, IsSdkData, item-set_item, item-set_list, item-cache_collections,
}
use go_server_sdk.Persistent.Infinite.{
  mode-set_in, mode-flush_in, mode-init_core, cache_of_infinite, init_infinite, mode-init,
  upsert_infinite,
}

-- What the cache holds for an item, and the mode, after a write.
abbrev pub Holds :
    {A C K : Type 0}
    → GoCache (Cached A) K
    → ℕ
    → DataKind
    → String
    → Option (ItemDescriptor A)
    → Wrapper C K
    → Type 0
Holds go_cache later l j o w =
    (cached_item go_cache later l j w ≡ o) × (has_infinite_cache w ≡ true)

module _ {A C K : Type 0} (go_cache : GoCache (Cached A) K) (laws : CacheLaws go_cache)
    (never : NeverExpires go_cache) where
  cache_failed-Holds :
      (now later : ℕ) (k l : DataKind) (i j : String) (x : ItemDescriptor A) (w : Wrapper C K)
      → has_infinite_cache w ≡ true
      → IsSdkKind k
      → IsSdkKind l
      → Holds go_cache later l j
          (if kind_eq.beq k l && i == j then some x else cached_item go_cache later l j w)
          (cache_failed go_cache now k i x w)
  unfolding cache_failed
  cache_failed-Holds now later k l i j x w h f g =
      let all_key = data_store_all_items_cache_key k in
      let key = data_store_cache_key k i in
      let c = cache_of_infinite w h in
      let w₁ : Wrapper C K = set_in go_cache now key (one_item x) w in
      let items =
        update_single_item (or_else (as_items (read_in go_cache now all_key w₁)) []) i x in
      (
        item-set_list go_cache laws never now later k l j items w₁
              (is_some-set_in go_cache now key (one_item x) w ∙ c) g
            ∙ item-set_item go_cache laws never now later k l i j x w c f g,
        mode-set_in go_cache now all_key (all_items items) w₁
            ∙ mode-set_in go_cache now key (one_item x) w
            ∙ h,
      )

  update_list-Holds :
      (now later : ℕ) (k l : DataKind) (i j : String) (x : ItemDescriptor A)
      (items : Option (List (KeyedItemDescriptor A))) (w : Wrapper C K)
      → has_infinite_cache w ≡ true
      → IsSdkKind l
      → Holds go_cache later l j
          (cached_item go_cache later l j w)
          (update_list go_cache now k i x items w)
  unfolding update_list
  update_list-Holds now later k l i j x none w h g = (refl, h)
  update_list-Holds now later k l i j x (some xs) w h g =
      let items = update_single_item xs i x in
      (
        item-set_list go_cache laws never now later k l j items w (cache_of_infinite w h) g,
        mode-set_in go_cache now (data_store_all_items_cache_key k) (all_items items) w ∙ h,
      )

  cache_updated-Holds :
      (now later : ℕ) (k l : DataKind) (i j : String) (x : ItemDescriptor A) (w : Wrapper C K)
      → has_infinite_cache w ≡ true
      → IsSdkKind k
      → IsSdkKind l
      → Holds go_cache later l j
          (if kind_eq.beq k l && i == j then some x else cached_item go_cache later l j w)
          (cache_updated go_cache now k i x w)
  unfolding cache_updated
  cache_updated-Holds now later k l i j x w h f g =
      let all_key = data_store_all_items_cache_key k in
      let key = data_store_cache_key k i in
      let c = cache_of_infinite w h in
      let w₁ : Wrapper C K = set_in go_cache now key (one_item x) w in
      let m : has_infinite_cache w₁ ≡ true = mode-set_in go_cache now key (one_item x) w ∙ h in
      let list = as_items (read_in go_cache now all_key w₁) in
      let after = update_list-Holds now later k l i j x list w₁ m g in
      if-elim
        (Holds go_cache later l j
          (if kind_eq.beq k l && i == j then some x else cached_item go_cache later l j w))
        (has_infinite_cache w₁) (update_list go_cache now k i x list w₁)
        (delete_in go_cache all_key w₁)
        (λ t. (after.0 ∙ item-set_item go_cache laws never now later k l i j x w c f g, after.1))
        (λ t. cc (t, m))

module _ {A B C K : Type 0} (kinds : Serializer A B) (store : PersistentDataStore B C)
    (go_cache : GoCache (Cached A) K) (laws : CacheLaws go_cache)
    (never : NeverExpires go_cache) where
  -- In the infinite mode, after an Upsert that the store has taken or has failed, the cache holds the new
  -- item, and of the other items what it held.
  pub upsert-Holds :
      (now later : ℕ) (k l : DataKind) (i j : String) (x : ItemDescriptor A) (w : Wrapper C K)
      → has_infinite_cache w ≡ true
      → ((upsert kinds store go_cache now k i x w).0.0
          || is_some (upsert kinds store go_cache now k i x w).0.1)
        ≡ true
      → IsSdkKind k
      → IsSdkKind l
      → Holds go_cache later l j
          (if kind_eq.beq k l && i == j then some x else cached_item go_cache later l j w)
          (upsert kinds store go_cache now k i x w).1
  upsert-Holds now later k l i j x w h a f g =
      upsert_infinite kinds store go_cache
        (Holds go_cache later l j
          (if kind_eq.beq k l && i == j then some x else cached_item go_cache later l j w))
        now k i x w h a
        (λ v m e. (
          subst
              (λ o.
                Holds go_cache later l j (if kind_eq.beq k l && i == j then some x else o)
                  (cache_failed go_cache now k i x v))
              (read_same v e) (cache_failed-Holds go_cache laws never now later k l i j x v m f g),
          subst
              (λ o.
                Holds go_cache later l j (if kind_eq.beq k l && i == j then some x else o)
                  (cache_updated go_cache now k i x v))
              (read_same v e) (cache_updated-Holds go_cache laws never now later k l i j x v m f g),
        ))
    where
      read_same :
          (v : Wrapper C K)
          → v.cache ≡ w.cache
          → cached_item go_cache later l j v ≡ cached_item go_cache later l j w
      read_same v e =
          ap
            (λ s. as_item (elim s [
              | none ↦ none
              | some s ↦ go_cache.cache_get later (data_store_cache_key l j) s
            ]))
            e

  -- In the infinite mode, after an Init the cache holds the items of the data set and no others.
  pub init-Holds :
      (now later : ℕ) (l : DataKind) (j : String) (colls : List (Collection A)) (w : Wrapper C K)
      → has_infinite_cache w ≡ true
      → IsSdkData colls
      → IsSdkKind l
      → Holds go_cache later l j (written l j colls) (init kinds store go_cache now colls w).1
  init-Holds now later l j colls w h f g =
      let reported : Wrapper C K = (init_core kinds store go_cache colls w).1 in
      let flushed : Wrapper C K = flush_in go_cache reported in
      let m : has_infinite_cache flushed ≡ true =
        mode-flush_in go_cache reported ∙ mode-init_core kinds store go_cache colls w ∙ h in
      (
        ap (λ v. cached_item go_cache later l j v)
              (init_infinite kinds store go_cache now colls w h)
            ∙ item-cache_collections go_cache laws never now later l j colls flushed
                (cache_of_infinite flushed m) f g
            ∙ ap (λ o. first_some (written l j colls) (as_item o))
                (read-flush go_cache laws later (data_store_cache_key l j) reported)
            ∙ first_some-none (written l j colls),
        mode-init kinds store go_cache now colls w h,
      )
