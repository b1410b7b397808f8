-- ===== src/DataSource/StreamingRuns.antt =====
-- Events and runs of the streaming data source of internal/datasource/streaming_data_source.go.
use go_server_sdk.Prelude.{
  ℕ, suc, Bool, true, false, not, ◌&&◌, ◌||◌, none, some, List, [], ◌∷◌, if◌then◌else◌, if-elim,
  ◌≡◌, refl, arith,
}
use go_server_sdk.UpdateSink.Status.{no_error, valid, interrupted}
use go_server_sdk.DataSource.{DataSourceUpdateSink, invalid_data}
use go_server_sdk.DataSource.Streaming.{
  Event, put_event, patch_event, delete_event, malformed, unexpected, StreamError,
  subscription_error, network_failure, StreamProcessor, start, set_initialized_and_notify_client,
  log_connection_started, log_connection_result, restart, handle_store_status, stop_consuming,
  got_malformed_event, store_update_failed, upsert_item, process_event, handle_event, error_handler,
  close_processor,
}

abbrev pub is_malformed : {A : Type 0} → Event A → Bool
is_malformed (malformed _) = true
is_malformed _ = false

abbrev pub is_put : {A : Type 0} → Event A → Bool
is_put (put_event _) = true
is_put _ = false

module _ {A W : Type 0} (sink : DataSourceUpdateSink A W) where
  -- What an event does to the world, and whether its data was taken.
  unfoldable pub effect : ℕ → Event A → W → Bool × W
  effect now (put_event all_data) w = sink.init all_data w
  effect now (patch_event none key item) w = (true, w)
  effect now (patch_event (some kind) key item) w = sink.upsert kind key item w
  effect now (delete_event none key version) w = (true, w)
  effect now (delete_event (some kind) key version) w =
      sink.upsert kind key (record { version = version; item = none }) w
  effect now (malformed message) w = (
    false,
    sink.update_status interrupted
        (record { kind = invalid_data; status_code = 0; message = message; time = now }) w,
  )
  effect now unexpected w = (true, w)

  -- The event's data was not taken, and no store will tell when it can be.
  abbrev pub is_lost : ℕ → Event A → StreamProcessor W → Bool
  is_lost now event s =
      not (effect now event s.world).0 && (is_malformed event || not s.store_monitored)

  -- An event whose data is lost (it is malformed, or the sink has refused it and the store is not monitored)
  -- restarts the stream, once; after what any other one does the status is set to VALID, also if the sink
  -- has refused the event and the store is monitored; and the data source is then initialized if it was or if
  -- the event is a put that was taken.
  pub handle_event_lem :
      (now : ℕ) (event : Event A) (s : StreamProcessor W)
      → ((handle_event sink now event s).restarts
          ≡ (if is_lost now event s then suc s.restarts else s.restarts))
        × ((handle_event sink now event s).world ≡ (
            if is_lost now event s
            then (effect now event s.world).1
            else sink.update_status valid no_error (effect now event s.world).1))
        × ((handle_event sink now event s).is_initialized
            ≡ (is_put event && (effect now event s.world).0 || s.is_initialized))
  unfolding handle_event process_event log_connection_result restart effect upsert_item
      store_update_failed got_malformed_event set_initialized_and_notify_client
  handle_event_lem now (put_event all_data) s = (ground (arith), ground (arith), ground (arith))
  handle_event_lem now (patch_event none key item) s = (refl, refl, refl)
  handle_event_lem now (patch_event (some kind) key item) s =
      (ground (arith), ground (arith), ground (arith))
  handle_event_lem now (delete_event none key version) s = (refl, refl, refl)
  handle_event_lem now (delete_event (some kind) key version) s =
      (ground (arith), ground (arith), ground (arith))
  handle_event_lem now (malformed message) s = (refl, refl, refl)
  handle_event_lem now unexpected s = (refl, refl, refl)

-- What happens to a stream processor once its subscription has started: an event, a status of the store, an error
-- of the stream, the end of the stream or of the goroutine, and a call of Close.
pub data StreamStep (A : Type 0) : Type 0 where
  received : (now : ℕ) (event : Event A) → StreamStep A
  store_status : (available needs_refresh : Bool) → StreamStep A
  stream_failed : (now : ℕ) (error : StreamError) → StreamStep A
  stopped closing : StreamStep A

abbrev pub IsReady : {W : Type 0} → StreamProcessor W → Type 0
IsReady s = s.ready ≡ s.is_initialized

module _ {A W : Type 0} (sink : DataSourceUpdateSink A W) where
  unfoldable pub stream_step : StreamStep A → StreamProcessor W → StreamProcessor W
  unfolding handle_event handle_store_status error_handler stop_consuming close_processor
  stream_step (received now event) s = if s.running then handle_event sink now event s else s
  stream_step (store_status available needs_refresh) s =
      if s.running then handle_store_status available needs_refresh s else s
  stream_step (stream_failed now error) s =
      let (close_now, s₁) = error_handler sink now error s in
      if close_now then stop_consuming s₁ else s₁
  stream_step stopped s = stop_consuming s
  stream_step closing s = close_processor sink s

  unfoldable pub run_streaming : List (StreamStep A) → StreamProcessor W → StreamProcessor W
  unfolding stream_step
  run_streaming [] s = s
  run_streaming (x ∷ xs) s = run_streaming xs (stream_step x s)

  upsert_item-IsReady :
      (kind key item : _) (s : StreamProcessor W)
      → IsReady s
      → IsReady (upsert_item sink kind key item s).1
  unfolding upsert_item store_update_failed
  upsert_item-IsReady none key item s r = r
  upsert_item-IsReady (some kind) key item s r = ground (arith, r)

  process_event-IsReady :
      (now : ℕ) (event : Event A) (s : StreamProcessor W)
      → IsReady s
      → IsReady (process_event sink now event s).1
  unfolding process_event store_update_failed got_malformed_event set_initialized_and_notify_client
  process_event-IsReady now (put_event all_data) s r = ground (arith, r)
  process_event-IsReady now (patch_event kind key item) s r = upsert_item-IsReady kind key item s r
  process_event-IsReady now (delete_event kind key version) s r = upsert_item-IsReady kind key _ s r
  process_event-IsReady now (malformed message) s r = r
  process_event-IsReady now unexpected s r = r

  handle_event-IsReady :
      (now : ℕ) (event : Event A) (s : StreamProcessor W)
      → IsReady s
      → IsReady (handle_event sink now event s)
  unfolding handle_event log_connection_result restart
  handle_event-IsReady now event s r =
      let same = process_event-IsReady now event (log_connection_result now true s) r in
      ground (arith, same)

  handle_store_status-IsReady :
      (available needs_refresh : Bool) (s : StreamProcessor W)
      → IsReady s
      → IsReady (handle_store_status available needs_refresh s)
  unfolding handle_store_status set_initialized_and_notify_client
  handle_store_status-IsReady true needs_refresh s r = refl
  handle_store_status-IsReady false needs_refresh s r = r

  error_handler-IsReady :
      (now : ℕ) (error : StreamError) (s : StreamProcessor W)
      → IsReady s
      → IsReady (error_handler sink now error s).1
  unfolding error_handler log_connection_result log_connection_started
  error_handler-IsReady now (subscription_error code) s r = ground (arith, r)
  error_handler-IsReady now (network_failure message) s r = r

  stream_step-IsReady :
      (x : StreamStep A) (s : StreamProcessor W) → IsReady s → IsReady (stream_step x s)
  unfolding stream_step stop_consuming close_processor
  stream_step-IsReady (received now event) s r =
      if-elim IsReady s.running _ _ (λ e. handle_event-IsReady now event s r) (λ e. r)
  stream_step-IsReady (store_status available needs_refresh) s r =
      if-elim IsReady s.running _ _ (λ e. handle_store_status-IsReady available needs_refresh s r)
        (λ e. r)
  stream_step-IsReady (stream_failed now error) s r =
      let same = error_handler-IsReady now error s r in
      if-elim IsReady (error_handler sink now error s).0 _ _ (λ e. same) (λ e. same)
  stream_step-IsReady stopped s r = r
  stream_step-IsReady closing s r = if-elim IsReady s.closed _ _ (λ e. r) (λ e. r)

  run_keeps-IsReady :
      (xs : List (StreamStep A)) (s : StreamProcessor W) → IsReady s → IsReady (run_streaming xs s)
  unfolding run_streaming
  run_keeps-IsReady [] s r = r
  run_keeps-IsReady (x ∷ xs) s r = run_keeps-IsReady xs _ (stream_step-IsReady x s r)

  -- After any events, statuses of the store, errors and calls of Close that follow a subscription, the channel
  -- closeWhenReady of a streaming data source is closed just when the data source is initialized,
  -- whether or not the stream still runs.
  pub run_streaming-IsReady :
      (xs : List (StreamStep A)) (store_monitored diagnostics : Bool) (w : W)
      → IsReady (run_streaming xs (start store_monitored diagnostics w))
  unfolding start
  run_streaming-IsReady xs store_monitored diagnostics w = run_keeps-IsReady xs _ refl
