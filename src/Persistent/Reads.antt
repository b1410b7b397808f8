-- ===== src/Persistent/Reads.antt =====
-- What the wrapper's cache answers after it is written, where its entries never expire.
use go_server_sdk.Prelude.{
  ℕ, String, true, none, some, is_some, refl, ◌≡◌, if◌then◌else◌, string_eq, ◌==◌, arith,
  Option-cases, inl, inr,
}
use go_server_sdk.Types.{kind_eq, Error}
use go_server_sdk.Persistent.Cache.{Cached, GoCache, CacheLaws, NeverExpires}
use go_server_sdk.Persistent.State.{Wrapper, process_error, set_in, delete_in, flush_in, read_in}

-- A report of an error leaves the cache and its mode.
pub process_error-cache :
    {C K : Type 0} (err : Error) (w : Wrapper C K) → (process_error err w).cache ≡ w.cache
unfolding process_error
process_error-cache none w = refl
process_error-cache (some e) w = refl

pub process_error-ttl :
    {C K : Type 0} (err : Error) (w : Wrapper C K) → (process_error err w).cache_ttl ≡ w.cache_ttl
unfolding process_error
process_error-ttl none w = refl
process_error-ttl (some e) w = refl

module _ {A C K : Type 0} (go_cache : GoCache (Cached A) K) (laws : CacheLaws go_cache)
    (never : NeverExpires go_cache) where
  -- An entry reads the same at every time.
  pub read_later :
      (now later : ℕ) (j : String) (w : Wrapper C K)
      → read_in go_cache later j w ≡ read_in go_cache now j w
  read_later now later j w = elim (Option-cases w.cache) [
    | inl e ↦ ground (arith, e)
    | inr (s, e) ↦ ground (arith, e, never.get_later now later j s)
  ]

  pub read-set :
      (now later : ℕ) (k j : String) (t : Cached A) (w : Wrapper C K)
      → is_some w.cache ≡ true
      → read_in go_cache later j (set_in go_cache now k t w)
        ≡ (if k == j then some t else read_in go_cache later j w)
  read-set now later k j t w h = elim (Option-cases w.cache) [
    | inl e ↦ cc (e, h)
    | inr (s, e) ↦ ground (
      arith,
      e,
      never.get_later now later j s,
      never.get_later now later j (go_cache.cache_set now k t s),
      laws.get_set now k j t s,
    )
  ]

module _ {A C K : Type 0} (go_cache : GoCache (Cached A) K) (laws : CacheLaws go_cache) where
  pub read-delete :
      (now : ℕ) (k j : String) (w : Wrapper C K)
      → read_in go_cache now j (delete_in go_cache k w)
        ≡ (if k == j then none else read_in go_cache now j w)
  read-delete now k j w = elim (Option-cases w.cache) [
    | inl e ↦ ground (arith, e)
    | inr (s, e) ↦ ground (arith, e, laws.get_delete now k j s)
  ]

  pub read-flush :
      (now : ℕ) (j : String) (w : Wrapper C K) → read_in go_cache now j (flush_in go_cache w) ≡ none
  read-flush now j w = elim (Option-cases w.cache) [
    | inl e ↦ ground (arith, e)
    | inr (s, e) ↦ ground (arith, e, laws.get_flush now j s)
  ]

-- A write leaves a cache there.
pub is_some-set_in :
    {A C K : Type 0} (go_cache : GoCache (Cached A) K) (now : ℕ) (k : String) (t : Cached A)
    (w : Wrapper C K)
    → is_some (set_in go_cache now k t w).cache ≡ is_some w.cache
is_some-set_in go_cache now k t w = elim (Option-cases w.cache) [
  | inl e ↦ ground (arith, e)
  | inr (s, e) ↦ ground (arith, e)
]

pub is_some-flush_in :
    {A C K : Type 0} (go_cache : GoCache (Cached A) K) (w : Wrapper C K)
    → is_some (flush_in go_cache w).cache ≡ is_some w.cache
is_some-flush_in go_cache w = elim (Option-cases w.cache) [
  | inl e ↦ ground (arith, e)
  | inr (s, e) ↦ ground (arith, e)
]
