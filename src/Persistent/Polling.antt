-- ===== src/Persistent/Polling.antt =====
-- The steps of a persistent store wrapper and of its polling goroutines: each call of
-- internal/datastore/persistent_data_store_wrapper.go, a tick of a polling goroutine, and its end by a
-- closed channel.
use go_server_sdk.Prelude.{
  ℕ, String, ℤ, true, false, List, member, refl, sym, ap, ◌∙◌, ◌≡◌, subst, if◌then◌else◌, if-elim,
  arith, nat_eq,
}
use go_server_sdk.Types.{DataKind, ItemDescriptor, Collection}
use go_server_sdk.Persistent.Codec.{Serializer}
use go_server_sdk.Persistent.Cache.{Cached, GoCache}
use go_server_sdk.Persistent.Poller.{
  Poller, DataStoreUpdateSink, update_availability, returns, stop_polling,
}
use go_server_sdk.Persistent.Watch.{
  IsWatched, new_data_store_status_poller-IsWatched, update_availability_same, outage-IsWatched,
  recovery-IsWatched, running_alone, IsRecovered, recovery-IsRecovered, close_poller-IsWatched,
  stop_polling-IsWatched,
}
use go_server_sdk.Persistent.State.{PersistentDataStore, Wrapper, new_persistent_data_store_wrapper}
use go_server_sdk.Persistent.Wrapper.{
  init, get, get_all, upsert, is_initialized, close, poll_availability_after_outage, poll,
}
use go_server_sdk.Persistent.Keeps.{
  Kept, init-keeps, get-keeps, get_all-keeps, upsert-keeps, is_initialized-keeps,
  poll_availability_after_outage-keeps,
}

module _ {A B C K : Type 0} (kinds : Serializer A B) (store : PersistentDataStore B C)
    (go_cache : GoCache (Cached A) K) where
  pub data Step : Wrapper C K → Wrapper C K → Type 0 where
    step_init :
        (now : ℕ) (colls : List (Collection A)) (w : Wrapper C K)
        → Step w (init kinds store go_cache now colls w).1
    step_get :
        (now : ℕ) (k : DataKind) (i : String) (w : Wrapper C K)
        → Step w (get kinds store go_cache now k i w).1
    step_get_all :
        (now : ℕ) (k : DataKind) (w : Wrapper C K) → Step w (get_all kinds store go_cache now k w).1
    step_upsert :
        (now : ℕ) (k : DataKind) (i : String) (x : ItemDescriptor A) (w : Wrapper C K)
        → Step w (upsert kinds store go_cache now k i x w).1
    step_is_initialized :
        (now : ℕ) (w : Wrapper C K) → Step w (is_initialized kinds store go_cache now w).1
    step_close : (w : Wrapper C K) → Step w (close kinds store go_cache w).1
    step_poll : (c now : ℕ) (w : Wrapper C K) → Step w (poll kinds store go_cache c now w)
    step_stop : (c : ℕ) (w : Wrapper C K) → Step w (record w { poller = stop_polling c w.poller })

  pub data Reaches : Wrapper C K → Wrapper C K → Type 0 where
    here : (w : Wrapper C K) → Reaches w w
    next : {u v w : Wrapper C K} → Reaches u v → Step v w → Reaches u w

  IsWatched-Kept : Kept IsWatched
  IsWatched-Kept = record { outage = outage-IsWatched }

  -- While the store is unavailable, a report of an outage changes nothing.
  unchanged_kept : (m : Poller) → m.last_available ≡ false → Kept (λ p. p ≡ m)
  unchanged_kept m h = record {
    outage = λ p e. (ap (update_availability false) e ∙ update_availability_same false m h);
  }

  -- In an outage, the poll function leaves the poller.
  outage_poll :
      (now : ℕ) (w : Wrapper C K)
      → w.poller.last_available ≡ false
      → (poll_availability_after_outage kinds store go_cache now w).1.poller ≡ w.poller
  outage_poll now w h =
      poll_availability_after_outage-keeps kinds store go_cache (λ p. p ≡ w.poller)
        (unchanged_kept w.poller h) now w refl

  poll-IsWatched :
      (c now : ℕ) (w : Wrapper C K)
      → IsWatched w.poller
      → IsWatched (poll kinds store go_cache c now w).poller
  unfolding poll
  poll-IsWatched c now w h =
      let (available, w₁) = poll_availability_after_outage kinds store go_cache now w in
      let ended : Wrapper C K = record w₁ {
        poller = returns c (update_availability true w₁.poller);
      } in
      let polled = if available then ended else w₁ in
      if-elim {A = Wrapper C K} (λ v. IsWatched v.poller) (member c w.poller.running) polled w
        (λ r.
          (let (alone, outage) = running_alone c w.poller h r in
            let same : w₁.poller ≡ w.poller = outage_poll now w outage in
            if-elim {A = Wrapper C K} (λ v. IsWatched v.poller) available ended w₁
              (λ t.
                subst (λ p. IsWatched (returns c (update_availability true p))) (sym same)
                  (recovery-IsWatched c w.poller alone h))
              (λ f. subst IsWatched (sym same) h)))
        (λ f. h)

  close-IsWatched :
      (w : Wrapper C K) → IsWatched w.poller → IsWatched (close kinds store go_cache w).1.poller
  unfolding close
  close-IsWatched w h = close_poller-IsWatched w.poller h

  step-IsWatched : {v w : Wrapper C K} → Step v w → IsWatched v.poller → IsWatched w.poller
  step-IsWatched (step_init now colls w) h =
      init-keeps kinds store go_cache IsWatched IsWatched-Kept now colls w h
  step-IsWatched (step_get now k i w) h =
      get-keeps kinds store go_cache IsWatched IsWatched-Kept now k i w h
  step-IsWatched (step_get_all now k w) h =
      get_all-keeps kinds store go_cache IsWatched IsWatched-Kept now k w h
  step-IsWatched (step_upsert now k i x w) h =
      upsert-keeps kinds store go_cache IsWatched IsWatched-Kept now k i x w h
  step-IsWatched (step_is_initialized now w) h =
      is_initialized-keeps kinds store go_cache IsWatched IsWatched-Kept now w h
  step-IsWatched (step_close w) h = close-IsWatched w h
  step-IsWatched (step_poll c now w) h = poll-IsWatched c now w h
  step-IsWatched (step_stop c w) h = stop_polling-IsWatched c w.poller h

  Reaches-IsWatched : {v w : Wrapper C K} → Reaches v w → IsWatched v.poller → IsWatched w.poller
  Reaches-IsWatched (here w) h = h
  Reaches-IsWatched (next r s) h = step-IsWatched s (Reaches-IsWatched r h)

  -- From a new wrapper on, in every sequence of calls and of ticks of the polling goroutine: at most one
  -- goroutine polls the store, none while the store is taken for available; and, until Close is called,
  -- one does while the store is not available, and its channel is the one that Close would close.
  pub Reaches-new-IsWatched :
      (core : C) (updates : DataStoreUpdateSink) (ttl : ℤ) (empty : K) (w : Wrapper C K)
      → Reaches (new_persistent_data_store_wrapper core updates ttl empty) w
      → IsWatched w.poller
  unfolding new_persistent_data_store_wrapper
  Reaches-new-IsWatched core updates ttl empty w r =
      Reaches-IsWatched r (new_data_store_status_poller-IsWatched updates _)

  found_available :
      (now : ℕ) (w : Wrapper C K)
      → (store.is_store_available w.core).0 ≡ true
      → (poll_availability_after_outage kinds store go_cache now w).0 ≡ true
  unfolding poll_availability_after_outage
  found_available now w s = ground (arith, s)

  -- In a watched state (IsWatched), when a goroutine polls and finds the store available, the outage ends
  -- with that tick, whatever the store answers when the cached data is written back: the store counts as
  -- available, the status says so and asks for a refresh if the poller is made to, and nothing polls.
  pub poll_recovers :
      (c now : ℕ) (w : Wrapper C K)
      → IsWatched w.poller
      → member c w.poller.running ≡ true
      → (store.is_store_available w.core).0 ≡ true
      → IsRecovered w.poller.refresh_on_recovery (poll kinds store go_cache c now w).poller
  unfolding poll
  poll_recovers c now w h r s =
      let (available, w₁) = poll_availability_after_outage kinds store go_cache now w in
      let ended : Wrapper C K = record w₁ {
        poller = returns c (update_availability true w₁.poller);
      } in
      let polled = if available then ended else w₁ in
      let (alone, outage) = running_alone c w.poller h r in
      let Goal : Wrapper C K → Type 0 = λ v. IsRecovered w.poller.refresh_on_recovery v.poller in
      if-elim {A = Wrapper C K} Goal (member c w.poller.running) polled w
        (λ t.
          if-elim {A = Wrapper C K} Goal available ended w₁
            (λ t.
              subst
                (λ p.
                  IsRecovered w.poller.refresh_on_recovery (returns c (update_availability true p)))
                (sym (outage_poll now w outage)) (recovery-IsRecovered c w.poller alone outage))
            (λ f. cc (f, found_available now w s)))
        (λ f. cc (f, r))
