-- ===== src/Persistent/Failed.antt =====
-- Writes that the store fails, in the finite mode of internal/datastore/persistent_data_store_wrapper.go.
use go_server_sdk.Prelude.{
  ℕ, String, Bool, true, false, not, ◌&&◌, none, some, is_some, List, refl, sym, ◌∙◌, ◌≡◌, subst,
  if-elim, arith, Bool-cases,
}
use go_server_sdk.Types.{DataKind, ItemDescriptor, Collection, Error}
use go_server_sdk.Persistent.Codec.{Serializer, serialize}
use go_server_sdk.Persistent.Cache.{Cached, GoCache, CacheLaws}
use go_server_sdk.Persistent.State.{
  PersistentDataStore, Wrapper, has_infinite_cache, process_error, flush_in, read_in,
  cache_collections, cache_failed,
}
use go_server_sdk.Persistent.Wrapper.{serialize_collections, init_core, init, cache_upsert, upsert}
use go_server_sdk.Persistent.Infinite.{mode-process_error, mode-flush_in}
use go_server_sdk.Persistent.Reads.{read-flush, process_error-cache}
use go_server_sdk.Persistent.Writes.{Write, write_init, write_upsert, apply_write}

process_error-inited :
    {C K : Type 0} (err : Error) (w : Wrapper C K) → (process_error err w).inited ≡ w.inited
unfolding process_error
process_error-inited none w = refl
process_error-inited (some e) w = refl

module _ {A B C K : Type 0} (kinds : Serializer A B) (store : PersistentDataStore B C)
    (go_cache : GoCache (Cached A) K) where
  -- The error that the write returns.
  abbrev pub write_error : Write A → Wrapper C K → Error
  write_error (write_init now colls) w = (init kinds store go_cache now colls w).0
  write_error (write_upsert now k i x) w = (upsert kinds store go_cache now k i x w).0.1

  -- Of two states, the second is initialized as the first is and caches nothing else.
  abbrev pub IsNoNewer : Wrapper C K → Wrapper C K → Type 0
  IsNoNewer v w =
      (w.inited ≡ v.inited)
      × ((now : ℕ) (key : String) (t : Cached A)
          → read_in go_cache now key w ≡ some t
          → read_in go_cache now key v ≡ some t)

  init_error :
      (now : ℕ) (colls : List (Collection A)) (w : Wrapper C K)
      → (init kinds store go_cache now colls w).0 ≡ (init_core kinds store go_cache colls w).0
  unfolding init
  init_error now colls w =
      let flushed : Wrapper C K = flush_in go_cache (init_core kinds store go_cache colls w).1 in
      ground (
        arith,
        Bool-cases (
            is_some (init_core kinds store go_cache colls w).0 && not (has_infinite_cache flushed)),
      )

  init_failed :
      (laws : CacheLaws go_cache) (now : ℕ) (colls : List (Collection A)) (w : Wrapper C K)
      (e : String)
      → has_infinite_cache w ≡ false
      → (init_core kinds store go_cache colls w).0 ≡ some e
      → IsNoNewer w (init kinds store go_cache now colls w).1
  unfolding init init_core
  init_failed laws now colls w e h f =
      let (answer, core) =
        store.core_init (serialize_collections kinds store go_cache colls) w.core in
      let w₁ : Wrapper C K = record w { core = core } in
      let reported : Wrapper C K = process_error answer w₁ in
      let flushed : Wrapper C K = flush_in go_cache reported in
      let filled : Wrapper C K = record (cache_collections go_cache now colls flushed) {
        inited = true;
      } in
      let finite : has_infinite_cache flushed ≡ false =
        mode-flush_in go_cache reported ∙ mode-process_error answer w₁ ∙ h in
      if-elim {A = Error × Wrapper C K} (λ r. IsNoNewer w r.1)
        (is_some answer && not (has_infinite_cache flushed)) (answer, flushed) (answer, filled)
        (λ t. (
          process_error-inited answer w₁,
          λ now key t r. cc (sym r, read-flush go_cache laws now key reported),
        ))
        (λ c. ground (arith, c, f, finite))

  upsert_failed :
      (now : ℕ) (k : DataKind) (i : String) (x : ItemDescriptor A) (w : Wrapper C K) (e : String)
      → has_infinite_cache w ≡ false
      → (upsert kinds store go_cache now k i x w).0.1 ≡ some e
      → IsNoNewer w (upsert kinds store go_cache now k i x w).1
  unfolding upsert cache_upsert
  upsert_failed now k i x w e h f =
      let ((updated, err), core) = store.core_upsert k i (serialize kinds k x) w.core in
      let w₁ : Wrapper C K = record w { core = core } in
      let w₂ : Wrapper C K = process_error err w₁ in
      let same_cache = process_error-cache err w₁ in
      choose updated err w₂ f (mode-process_error err w₁ ∙ h) (
        process_error-inited err w₁,
        λ now key t r.
            subst (λ s. elim s [ none ↦ none | some s ↦ go_cache.cache_get now key s ] ≡ some t)
              same_cache r,
      )
    where
      choose :
          (updated : Bool) (err : Error) (v : Wrapper C K)
          → err ≡ some e
          → has_infinite_cache v ≡ false
          → IsNoNewer w v
          → IsNoNewer w (cache_upsert kinds store go_cache now k i x updated err v)
      choose updated none v f h n = cc f
      choose updated (some _) v f h n =
          if-elim (IsNoNewer w) (has_infinite_cache v) (cache_failed go_cache now k i x v) v
            (λ t. cc (t, h)) (λ f. n)

  -- With a cache that expires, a write that the store fails leaves the wrapper initialized or not as it
  -- was, and caches nothing: every entry that can be read after it could be read before.
  pub apply_write-IsNoNewer :
      (laws : CacheLaws go_cache) (write : Write A) (w : Wrapper C K) (e : String)
      → has_infinite_cache w ≡ false
      → write_error write w ≡ some e
      → IsNoNewer w (apply_write kinds store go_cache write w)
  apply_write-IsNoNewer laws (write_init now colls) w e h f =
      init_failed laws now colls w e h (sym (init_error now colls w) ∙ f)
  apply_write-IsNoNewer laws (write_upsert now k i x) w e h f = upsert_failed now k i x w e h f
