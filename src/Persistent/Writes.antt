-- ===== src/Persistent/Writes.antt =====
-- Sequences of Init and Upsert of internal/datastore/persistent_data_store_wrapper.go, and what Get returns
-- after them.
use go_server_sdk.Prelude.{
  ℕ, String, true, ◌&&◌, ◌||◌, Option, none, some, is_some, List, [], ◌∷◌, refl, ap, ◌∙◌, ◌≡◌,
  if◌then◌else◌, string_eq, ◌==◌, arith, Option-cases, inl, inr,
}
use go_server_sdk.Types.{DataKind, kind_eq, ItemDescriptor, Collection}
use go_server_sdk.Persistent.Codec.{Serializer}
use go_server_sdk.Persistent.Cache.{Cached, GoCache, CacheLaws, NeverExpires}
use go_server_sdk.Persistent.Keys.{IsSdkKind}
use go_server_sdk.Persistent.State.{PersistentDataStore, Wrapper, has_infinite_cache}
use go_server_sdk.Persistent.Wrapper.{init, get, upsert}
use go_server_sdk.Persistent.Entries.{cached_item, written, IsSdkData}
use go_server_sdk.Persistent.Latest.{Holds, init-Holds, upsert-Holds}

-- A write and its time.
pub data Write (A : Type 0) : Type 0 where
  write_init : ℕ → List (Collection A) → Write A
  write_upsert : ℕ → DataKind → String → ItemDescriptor A → Write A

abbrev pub IsSdkWrite : {A : Type 0} → Write A → Type 0
IsSdkWrite (write_init now colls) = IsSdkData colls
IsSdkWrite (write_upsert now k i x) = IsSdkKind k

-- The last write of an item, before which there was `o`: Init replaces everything.
abbrev pub after_write :
    {A : Type 0}
    → Write A
    → DataKind
    → String
    → Option (ItemDescriptor A)
    → Option (ItemDescriptor A)
after_write (write_init now colls) l j o = written l j colls
after_write (write_upsert now k i x) l j o = if kind_eq.beq k l && i == j then some x else o

abbrev pub latest :
    {A : Type 0}
    → List (Write A)
    → DataKind
    → String
    → Option (ItemDescriptor A)
    → Option (ItemDescriptor A)
latest [] l j o = o
latest (write ∷ writes) l j o = latest writes l j (after_write write l j o)

abbrev pub IsSdkWrites : {A : Type 0} → List (Write A) → Type 0
IsSdkWrites [] = Unit
IsSdkWrites (write ∷ writes) = IsSdkWrite write × IsSdkWrites writes

module _ {A B C K : Type 0} (kinds : Serializer A B) (store : PersistentDataStore B C)
    (go_cache : GoCache (Cached A) K) where
  abbrev pub apply_write : Write A → Wrapper C K → Wrapper C K
  apply_write (write_init now colls) w = (init kinds store go_cache now colls w).1
  apply_write (write_upsert now k i x) w = (upsert kinds store go_cache now k i x w).1

  abbrev pub apply_writes : List (Write A) → Wrapper C K → Wrapper C K
  apply_writes [] w = w
  apply_writes (write ∷ writes) w = apply_writes writes (apply_write write w)

  -- The store takes the write or fails, and does not say that it has a later version.
  abbrev pub IsAccepted : Write A → Wrapper C K → Type 0
  IsAccepted (write_init now colls) w = Unit
  IsAccepted (write_upsert now k i x) w =
      ((upsert kinds store go_cache now k i x w).0.0
        || is_some (upsert kinds store go_cache now k i x w).0.1)
      ≡ true

  abbrev pub AreAccepted : List (Write A) → Wrapper C K → Type 0
  AreAccepted [] w = Unit
  AreAccepted (write ∷ writes) w = IsAccepted write w × AreAccepted writes (apply_write write w)

  -- An item that is in the cache is returned, and nothing else happens.
  get_cached :
      (now : ℕ) (l : DataKind) (j : String) (x : ItemDescriptor A) (w : Wrapper C K)
      → cached_item go_cache now l j w ≡ some x
      → get kinds store go_cache now l j w ≡ ((x, none), w)
  unfolding get
  get_cached now l j x w h = elim (Option-cases w.cache) [
    | inl e ↦ cc (rw e at h)
    | inr (s, e) ↦ ground (arith, e, h)
  ]

  module _ (laws : CacheLaws go_cache) (never : NeverExpires go_cache) where
    apply_write-Holds :
        (later : ℕ) (write : Write A) (l : DataKind) (j : String) (w : Wrapper C K)
        → has_infinite_cache w ≡ true
        → IsAccepted write w
        → IsSdkWrite write
        → IsSdkKind l
        → Holds go_cache later l j
            (after_write write l j (cached_item go_cache later l j w))
            (apply_write write w)
    apply_write-Holds later (write_init now colls) l j w h a f g =
        init-Holds kinds store go_cache laws never now later l j colls w h f g
    apply_write-Holds later (write_upsert now k i x) l j w h a f g =
        upsert-Holds kinds store go_cache laws never now later k l i j x w h a f g

    apply_writes-Holds :
        (later : ℕ) (writes : List (Write A)) (l : DataKind) (j : String) (w : Wrapper C K)
        → has_infinite_cache w ≡ true
        → AreAccepted writes w
        → IsSdkWrites writes
        → IsSdkKind l
        → Holds go_cache later l j
            (latest writes l j (cached_item go_cache later l j w))
            (apply_writes writes w)
    apply_writes-Holds later [] l j w h a f g = (refl, h)
    apply_writes-Holds later (write ∷ writes) l j w h a f g =
        let now = apply_write-Holds later write l j w h a.0 f.0 g in
        let later_on = apply_writes-Holds later writes l j (apply_write write w) now.1 a.1 f.1 g in
        (later_on.0 ∙ ap (latest writes l j) now.0, later_on.1)

    -- With a cache that never expires, after any sequence of Init and Upsert on the SDK's data kinds, in
    -- which no Upsert was ignored as outdated, whether the store took the writes or failed, Get returns
    -- the item that was written last, without an error and without a change of state.
    pub get-apply_writes :
        (later : ℕ) (writes : List (Write A)) (l : DataKind) (j : String) (x : ItemDescriptor A)
        (w : Wrapper C K)
        → has_infinite_cache w ≡ true
        → AreAccepted writes w
        → IsSdkWrites writes
        → IsSdkKind l
        → latest writes l j (cached_item go_cache later l j w) ≡ some x
        → get kinds store go_cache later l j (apply_writes writes w)
          ≡ ((x, none), apply_writes writes w)
    get-apply_writes later writes l j x w h a f g e =
        get_cached later l j x (apply_writes writes w)
          ((apply_writes-Holds later writes l j w h a f g).0 ∙ e)
