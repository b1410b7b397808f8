-- ===== src/Persistent/Entries.antt =====
-- The items and the lists that the wrapper's cache holds, after each of its writes, where the entries
-- never expire (the infinite mode of internal/datastore/persistent_data_store_wrapper.go).
use go_server_sdk.Prelude.{
  ℕ, String, Bool, true, false, ◌&&◌, Option, none, some, is_some, List, [], ◌∷◌, refl, ap, ◌∙◌,
  ◌≡◌, if◌then◌else◌, string_eq, ◌==◌, arith, Bool-cases, last_value, first_some,
}
use go_server_sdk.Types.{DataKind, kind_eq, ItemDescriptor, KeyedItemDescriptor, Collection}
use go_server_sdk.Persistent.Cache.{
  Cached, one_item, all_items, as_item, as_items, GoCache, CacheLaws, NeverExpires,
  data_store_cache_key, data_store_all_items_cache_key,
}
use go_server_sdk.Persistent.Keys.{IsSdkKind, item_key-beq, all_key-item_key}
use go_server_sdk.Persistent.State.{
  Wrapper, set_in, read_in, cache_each, cache_items, cache_collections,
}
use go_server_sdk.Persistent.Reads.{read-set, is_some-set_in}

module _ {A C K : Type 0} (go_cache : GoCache (Cached A) K) where
  abbrev pub cached_item : ℕ → DataKind → String → Wrapper C K → Option (ItemDescriptor A)
  cached_item now kind key w = as_item (read_in go_cache now (data_store_cache_key kind key) w)

  abbrev pub cached_list : ℕ → DataKind → Wrapper C K → Option (List (KeyedItemDescriptor A))
  cached_list now kind w = as_items (read_in go_cache now (data_store_all_items_cache_key kind) w)

-- The last item of a kind and a key in a data set.
abbrev pub written :
    {A : Type 0} → DataKind → String → List (Collection A) → Option (ItemDescriptor A)
written kind key [] = none
written kind key (coll ∷ colls) =
    first_some (written kind key colls)
      (if kind_eq.beq coll.kind kind then last_value key coll.items else none)

abbrev pub IsSdkData : {A : Type 0} → List (Collection A) → Type 0
IsSdkData [] = Unit
IsSdkData (coll ∷ colls) = IsSdkKind coll.kind × IsSdkData colls

module _ {A C K : Type 0} (go_cache : GoCache (Cached A) K) (laws : CacheLaws go_cache)
    (never : NeverExpires go_cache) where
  pub item-set_item :
      (now later : ℕ) (k l : DataKind) (i j : String) (x : ItemDescriptor A) (w : Wrapper C K)
      → is_some w.cache ≡ true
      → IsSdkKind k
      → IsSdkKind l
      → cached_item go_cache later l j
          (set_in go_cache now (data_store_cache_key k i) (one_item x) w)
        ≡ (if kind_eq.beq k l && i == j then some x else cached_item go_cache later l j w)
  item-set_item now later k l i j x w c h g =
      let at : Option (Cached A) = read_in go_cache later (data_store_cache_key l j) w in
      ap as_item (
        read-set go_cache laws never now later (data_store_cache_key k i) (data_store_cache_key l j)
          (one_item x) w c)
      ∙ ap (λ b. as_item (if b then some (one_item x) else at)) (item_key-beq k l i j h g)
      ∙ choose at (kind_eq.beq k l && i == j)
    where
      choose :
          (t : Option (Cached A)) (b : Bool)
          → as_item (if b then some (one_item x) else t) ≡ (if b then some x else as_item t)
      choose t true = refl
      choose t false = refl

  pub item-set_list :
      (now later : ℕ) (k l : DataKind) (j : String) (xs : List (KeyedItemDescriptor A))
      (w : Wrapper C K)
      → is_some w.cache ≡ true
      → IsSdkKind l
      → cached_item go_cache later l j
          (set_in go_cache now (data_store_all_items_cache_key k) (all_items xs) w)
        ≡ cached_item go_cache later l j w
  item-set_list now later k l j xs w c g =
      ap as_item (
        read-set go_cache laws never now later (data_store_all_items_cache_key k)
          (data_store_cache_key l j) (all_items xs) w c)
      ∙ ap
          (λ b. as_item (
            if b then some (all_items xs) else read_in go_cache later (data_store_cache_key l j) w))
          (all_key-item_key l k j g)

  pub item-cache_each :
      (now later : ℕ) (k l : DataKind) (j : String) (xs : List (KeyedItemDescriptor A))
      (w : Wrapper C K)
      → is_some w.cache ≡ true
      → IsSdkKind k
      → IsSdkKind l
      → cached_item go_cache later l j (cache_each go_cache now k xs w)
        ≡ first_some
            (if kind_eq.beq k l then last_value j xs else none)
            (cached_item go_cache later l j w)
  unfolding cache_each
  item-cache_each now later k l j [] w c h g = ground (arith, Bool-cases (kind_eq.beq k l))
  item-cache_each now later k l j ((i, x) ∷ xs) w c h g =
      let key = data_store_cache_key k i in
      let w₁ : Wrapper C K = set_in go_cache now key (one_item x) w in
      ground (
        arith,
        item-cache_each now later k l j xs w₁ (is_some-set_in go_cache now key (one_item x) w ∙ c) h
            g,
        item-set_item now later k l i j x w c h g,
      )

  pub cache-cache_each :
      (now : ℕ) (k : DataKind) (xs : List (KeyedItemDescriptor A)) (w : Wrapper C K)
      → is_some (cache_each go_cache now k xs w).cache ≡ is_some w.cache
  unfolding cache_each
  cache-cache_each now k [] w = refl
  cache-cache_each now k ((i, x) ∷ xs) w =
      cache-cache_each now k xs (set_in go_cache now (data_store_cache_key k i) (one_item x) w)
      ∙ is_some-set_in go_cache now (data_store_cache_key k i) (one_item x) w

  pub item-cache_collections :
      (now later : ℕ) (l : DataKind) (j : String) (colls : List (Collection A)) (w : Wrapper C K)
      → is_some w.cache ≡ true
      → IsSdkData colls
      → IsSdkKind l
      → cached_item go_cache later l j (cache_collections go_cache now colls w)
        ≡ first_some (written l j colls) (cached_item go_cache later l j w)
  unfolding cache_collections cache_items
  item-cache_collections now later l j [] w c h g = refl
  item-cache_collections now later l j (coll ∷ colls) w c h g =
      let key = data_store_all_items_cache_key coll.kind in
      let w₁ : Wrapper C K = set_in go_cache now key (all_items coll.items) w in
      let w₂ : Wrapper C K = cache_each go_cache now coll.kind coll.items w₁ in
      let c₁ : is_some w₁.cache ≡ true =
        is_some-set_in go_cache now key (all_items coll.items) w ∙ c in
      let c₂ : is_some w₂.cache ≡ true = cache-cache_each now coll.kind coll.items w₁ ∙ c₁ in
      ground (
        arith,
        item-cache_collections now later l j colls w₂ c₂ h.1 g,
        item-cache_each now later coll.kind l j coll.items w₁ c₁ h.0 g,
        item-set_list now later coll.kind l j coll.items w c g,
      )
