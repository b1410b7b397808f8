-- ===== src/DataSource/Streaming.antt =====
-- internal/datasource/streaming_data_source.go: StreamProcessor, with the goroutine of subscribe as one step
-- for each message that consumeStream reads and each call of the error handler.
-- The event stream and the JSON of the events are not in the repository: an event is what the parsers make of it.
-- A time is a number, and `now` is what the clock returns.
use go_server_sdk.Prelude.{
  ℕ, suc, String, ℤ, Bool, true, false, not, ◌&&◌, ◌||◌, Option, none, some, List, [], ◌∷◌,
  if◌then◌else◌, ltb, ◌-◌,
}
use go_server_sdk.Types.{DataKind, ItemDescriptor, Collection}
use go_server_sdk.UpdateSink.Status.{DataSourceErrorInfo, no_error, valid, interrupted, off}
use go_server_sdk.DataSource.{
  DataSourceUpdateSink, check_if_error_is_recoverable_and_log, unknown, network_error,
  error_response, invalid_data,
}

-- An event of the stream. A kind is missing where the path is not recognized; `malformed` is a put, a patch
-- or a delete whose data the parser refuses; `unexpected` is an event of any other name.
pub data Event (A : Type 0) : Type 0 where
  put_event : (all_data : List (Collection A)) → Event A
  patch_event : (kind : Option DataKind) (key : String) (item : ItemDescriptor A) → Event A
  delete_event : (kind : Option DataKind) (key : String) (version : ℤ) → Event A
  malformed : (message : String) → Event A
  unexpected : Event A

-- What the error handler is called with.
pub data StreamError : Type 0 where
  subscription_error : (code : ℕ) → StreamError
  network_failure : (message : String) → StreamError

-- `store_monitored` says that storeStatusCh is not nil. `ready` that closeWhenReady is closed, by readyOnce
-- or by subscribe; `running` that subscribe has not returned; `closed` that closeOnce has run, so that
-- halt is closed. `restarts` counts the calls of stream.Restart. `recorded` has what is given to
-- RecordStreamInit: the time, whether the attempt failed and its duration.
pub record StreamProcessor (W : Type 0) : Type 0 where
  pub is_initialized : Bool
  pub store_monitored : Bool
  pub ready : Bool
  pub running : Bool
  pub closed : Bool
  pub restarts : ℕ
  pub connection_attempt_start_time : ℕ
  pub diagnostics : Bool
  pub recorded : List ((ℕ × Bool) × ℕ)
  pub world : W

module _ {W : Type 0} where
  unfoldable pub start : Bool → Bool → W → StreamProcessor W
  start store_monitored diagnostics w = record {
    is_initialized = false;
    store_monitored = store_monitored;
    ready = false;
    running = true;
    closed = false;
    restarts = 0;
    connection_attempt_start_time = 0;
    diagnostics = diagnostics;
    recorded = [];
    world = w;
  }

  unfoldable pub set_initialized_and_notify_client : Bool → StreamProcessor W → StreamProcessor W
  set_initialized_and_notify_client success s = record s {
    is_initialized = success || s.is_initialized;
    ready = true;
  }

  unfoldable pub log_connection_started : ℕ → StreamProcessor W → StreamProcessor W
  log_connection_started now s = record s { connection_attempt_start_time = now }

  unfoldable pub log_connection_result : ℕ → Bool → StreamProcessor W → StreamProcessor W
  log_connection_result now success s =
      let start_time_was = s.connection_attempt_start_time in
      record s {
        connection_attempt_start_time = 0;
        recorded =
            if ltb 0 start_time_was && s.diagnostics
            then ((now, not success), now - start_time_was) ∷ s.recorded
            else s.recorded;
      }

  unfoldable pub restart : StreamProcessor W → StreamProcessor W
  restart s = record s { restarts = suc s.restarts }

  -- consumeStream, for a status of the store.
  unfoldable pub handle_store_status : Bool → Bool → StreamProcessor W → StreamProcessor W
  unfolding restart set_initialized_and_notify_client
  handle_store_status available needs_refresh s =
      if available
      then set_initialized_and_notify_client true (if needs_refresh then restart s else s)
      else s

  -- consumeStream ends: halt is closed, or the stream is.
  unfoldable pub stop_consuming : StreamProcessor W → StreamProcessor W
  stop_consuming s = record s { running = false }

  -- subscribe, when the stream cannot be opened.
  unfoldable pub subscribe_failed : ℕ → StreamProcessor W → StreamProcessor W
  unfolding log_connection_result
  subscribe_failed now s = record (log_connection_result now false s) {
    ready = true;
    running = false;
  }

module _ {A W : Type 0} (sink : DataSourceUpdateSink A W) where
  unfoldable pub bad_request : ℕ → String → StreamProcessor W → StreamProcessor W
  unfolding log_connection_result
  bad_request now message s =
      let info : DataSourceErrorInfo = record {
        kind = unknown;
        status_code = 0;
        message = message;
        time = now;
      } in
      record (log_connection_result now false
        (record s { world = sink.update_status off info s.world })) {
          ready = true;
          running = false;
        }

  -- subscribe, up to the call that opens the stream: the request may be refused with a message.
  unfoldable pub subscribe : ℕ → Option String → StreamProcessor W → StreamProcessor W
  unfolding bad_request log_connection_started
  subscribe now (some message) s = bad_request now message s
  subscribe now none s = log_connection_started now s

  -- What the handling of an event leaves: processedEvent, shouldRestart and the state.
  abbrev pub Handled : Type 0
  Handled = (Bool × Bool) × StreamProcessor W

  unfoldable pub got_malformed_event : ℕ → String → StreamProcessor W → Handled
  got_malformed_event now message s =
      let info : DataSourceErrorInfo = record {
        kind = invalid_data;
        status_code = 0;
        message = message;
        time = now;
      } in
      ((false, true), record s { world = sink.update_status interrupted info s.world })

  unfoldable pub store_update_failed : StreamProcessor W → Handled
  store_update_failed s = if s.store_monitored then ((true, false), s) else ((false, true), s)

  -- An item of a patch or of a delete.
  unfoldable pub upsert_item :
      Option DataKind → String → ItemDescriptor A → StreamProcessor W → Handled
  unfolding store_update_failed
  upsert_item none key item s = ((true, false), s)
  upsert_item (some kind) key item s =
      let (stored, w) = sink.upsert kind key item s.world in
      let s₁ = record s { world = w } in
      if stored then ((true, false), s₁) else store_update_failed s₁

  unfoldable pub process_event : ℕ → Event A → StreamProcessor W → Handled
  unfolding got_malformed_event store_update_failed upsert_item set_initialized_and_notify_client
  process_event now (put_event all_data) s =
      let (stored, w) = sink.init all_data s.world in
      let s₁ = record s { world = w } in
      if stored
      then ((true, false), set_initialized_and_notify_client true s₁)
      else store_update_failed s₁
  process_event now (patch_event kind key item) s = upsert_item kind key item s
  process_event now (delete_event kind key version) s =
      upsert_item kind key (record { version = version; item = none }) s
  process_event now (malformed message) s = got_malformed_event now message s
  process_event now unexpected s = ((true, false), s)

  -- consumeStream, for an event.
  unfoldable pub handle_event : ℕ → Event A → StreamProcessor W → StreamProcessor W
  unfolding process_event log_connection_result restart
  handle_event now event s =
      let ((processed, should_restart), s₁) =
        process_event now event (log_connection_result now true s) in
      let s₂ =
        if processed
        then record s₁ { world = sink.update_status valid no_error s₁.world }
        else s₁ in
      if should_restart then restart s₂ else s₂

  -- The result says whether to close now.
  unfoldable pub error_handler : ℕ → StreamError → StreamProcessor W → Bool × StreamProcessor W
  unfolding log_connection_result log_connection_started
  error_handler now (subscription_error code) s =
      let s₁ = log_connection_result now false s in
      let info : DataSourceErrorInfo = record {
        kind = error_response;
        status_code = code;
        message = "";
        time = now;
      } in
      if check_if_error_is_recoverable_and_log code
      then (let s₂ = log_connection_started now s₁ in
          (false, record s₂ { world = sink.update_status interrupted info s₂.world }))
      else (true, record s₁ { world = sink.update_status off info s₁.world })
  error_handler now (network_failure message) s =
      let s₁ = log_connection_result now false s in
      let info : DataSourceErrorInfo = record {
        kind = network_error;
        status_code = 0;
        message = message;
        time = now;
      } in
      (
        false,
        log_connection_started now
            (record s₁ { world = sink.update_status interrupted info s₁.world }),
      )

  -- The removal of the status listener is left out.
  unfoldable pub close_processor : StreamProcessor W → StreamProcessor W
  close_processor s =
      if s.closed
      then s
      else record s { closed = true; world = sink.update_status off no_error s.world }
