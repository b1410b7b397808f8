-- ===== src/DataSource/Fdv2.antt =====
-- internal/datasourcev2/streaming_data_source.go: the streaming data source of the FDv2 protocol, with the
-- goroutine of subscribe as one step for each event, and each call of the error handler.
-- The JSON of an event is not parsed here: an event holds what its parser makes of it, or the error's text.
use go_server_sdk.Prelude.{
  ℕ, suc, String, string_eq, Bool, true, false, not, ◌&&◌, ◌||◌, Option, none, some, List, [], ◌∷◌,
  ◌++◌, ◌⊎◌, inl, inr, ◌==◌, if◌then◌else◌, ltb, ◌-◌,
}
use go_server_sdk.Proto.{Event, IntentCode, ServerIntent, ErrorEvent, Goodbye, Selector}
use go_server_sdk.UpdateSink.Status.{
  DataSourceState, DataSourceErrorInfo, no_error, valid, interrupted, off,
}
use go_server_sdk.DataSource.{
  check_if_error_is_recoverable_and_log, unknown, network_error, error_response, invalid_data,
}
use go_server_sdk.DataSource.Streaming.{StreamError, subscription_error, network_failure}

-- The interfaces DataDestination and DataSourceStatusReporter, over a world `W`.
pub record DataDestination (A W : Type 0) : Type 0 where
  pub set_basis : List (Event A) → Option Selector → Bool → W → W
  pub apply_delta : List (Event A) → Option Selector → Bool → W → W
  pub update_status : DataSourceState → DataSourceErrorInfo → W → W

-- An event of the stream; `object_event` is a put-object or a delete-object.
pub data StreamEvent (A : Type 0) : Type 0 where
  heartbeat_event unexpected_event : StreamEvent A
  intent_event : (parsed : ServerIntent ⊎ String) → StreamEvent A
  object_event : (parsed : Event A ⊎ String) → StreamEvent A
  goodbye_event : (parsed : Goodbye ⊎ String) → StreamEvent A
  failure_event : (parsed : ErrorEvent ⊎ String) → StreamEvent A
  transferred_event : (parsed : Selector ⊎ String) → StreamEvent A

pub record ChangeSet (A : Type 0) : Type 0 where
  pub intent : Option ServerIntent
  pub events : List (StreamEvent A)

abbrev pub no_changes : {A : Type 0} → ChangeSet A
no_changes = record { intent = none; events = [] }

-- The fields are those of the streaming data source of internal/datasource, and the change set that the
-- goroutine holds.
pub record StreamProcessor (A W : Type 0) : Type 0 where
  pub is_initialized : Bool
  pub ready : Bool
  pub running : Bool
  pub closed : Bool
  pub persist : Bool
  pub restarts : ℕ
  pub connection_attempt_start_time : ℕ
  pub diagnostics : Bool
  pub recorded : List ((ℕ × Bool) × ℕ)
  pub current_change_set : ChangeSet A
  pub world : W

-- The objects before the first one that cannot be read are dropped with it: the caller ignores them.
unfoldable pub deserialize_events : {A : Type 0} → List (StreamEvent A) → List (Event A) ⊎ String
deserialize_events [] = inl []
deserialize_events (object_event (inl e) ∷ events) = elim (deserialize_events events) [
  | inl updates ↦ inl (e ∷ updates)
  | inr err ↦ inr err
]
deserialize_events (object_event (inr err) ∷ events) = inr err
deserialize_events (other ∷ events) = deserialize_events events

-- The code of the change set's intent: a panic without an intent or a payload.
unfoldable pub intent_code : Option ServerIntent → Option IntentCode
intent_code none = none
intent_code (some i) = elim i.payloads [ [] ↦ none | (p ∷ ps) ↦ some p.code ]

module _ {A W : Type 0} where
  unfoldable pub start : Bool → W → StreamProcessor A W
  start diagnostics w = record {
    is_initialized = false;
    ready = false;
    running = true;
    closed = false;
    persist = true;
    restarts = 0;
    connection_attempt_start_time = 0;
    diagnostics = diagnostics;
    recorded = [];
    current_change_set = no_changes;
    world = w;
  }

  unfoldable pub set_initialized_and_notify_client :
      Bool → StreamProcessor A W → StreamProcessor A W
  set_initialized_and_notify_client success s = record s {
    is_initialized = success || s.is_initialized;
    ready = true;
  }

  unfoldable pub log_connection_started : ℕ → StreamProcessor A W → StreamProcessor A W
  log_connection_started now s = record s { connection_attempt_start_time = now }

  unfoldable pub log_connection_result : ℕ → Bool → StreamProcessor A W → StreamProcessor A W
  log_connection_result now success s =
      let start_time_was = s.connection_attempt_start_time in
      record s {
        connection_attempt_start_time = 0;
        recorded =
            if ltb 0 start_time_was && s.diagnostics
            then ((now, not success), now - start_time_was) ∷ s.recorded
            else s.recorded;
      }

  -- subscribe, when the stream cannot be opened.
  unfoldable pub subscribe_failed : ℕ → StreamProcessor A W → StreamProcessor A W
  unfolding log_connection_result
  subscribe_failed now s = record (log_connection_result now false s) {
    ready = true;
    running = false;
  }

  -- consumeStream ends: halt is closed, or the stream is.
  unfoldable pub stop_consuming : StreamProcessor A W → StreamProcessor A W
  stop_consuming s = record s { running = false }

module _ {A W : Type 0} (destination : DataDestination A W) where
  -- What the handling of an event leaves: processedEvent, shouldRestart and the state. A `continue`
  -- leaves neither.
  abbrev pub Handled : Type 0
  Handled = (Bool × Bool) × StreamProcessor A W

  unfoldable pub got_malformed_event : ℕ → String → StreamProcessor A W → Handled
  got_malformed_event now message s =
      let info : DataSourceErrorInfo = record {
        kind = invalid_data;
        status_code = 0;
        message = message;
        time = now;
      } in
      ((false, true), record s { world = destination.update_status interrupted info s.world })

  -- The switch on the intent's code, in a transfer of `updates`.
  unfoldable pub transfer :
      IntentCode → List (Event A) → Selector → StreamProcessor A W → StreamProcessor A W
  unfolding set_initialized_and_notify_client
  transfer code updates selector s =
      let s₁ =
        if code == "xfer-full"
        then set_initialized_and_notify_client true
            (record s { world = destination.set_basis updates (some selector) true s.world })
        else if code == "xfer-changes"
        then record s { world = destination.apply_delta updates (some selector) true s.world }
        else s in
      record s₁ { current_change_set = no_changes }

  unfoldable pub payload_transferred : ℕ → Selector → StreamProcessor A W → Option Handled
  unfolding deserialize_events got_malformed_event transfer intent_code
  payload_transferred now selector s =
      let changes = s.current_change_set in
      let events = changes.events ++ transferred_event (inl selector) ∷ [] in
      let s₁ = record s { current_change_set = record changes { events = events } } in
      elim (deserialize_events events) [
        | inr err ↦ some (got_malformed_event now err s₁)
        | inl updates ↦ elim (intent_code changes.intent) [
          | none ↦ none
          | some code ↦ some ((true, false), transfer code updates selector s₁)
        ]
      ]

  unfoldable pub server_intent_received : ℕ → ServerIntent → StreamProcessor A W → Handled
  unfolding got_malformed_event
  server_intent_received now intent s = elim intent.payloads [
    | [] ↦ got_malformed_event now "server-intent event has no payloads" s
    | (p ∷ ps) ↦ if p.code == "none" then ((false, false), s) else (
      (true, false),
      record s { current_change_set = record { intent = some intent; events = [] } },
    )
  ]

  unfoldable pub process_event : ℕ → StreamEvent A → StreamProcessor A W → Option Handled
  unfolding got_malformed_event payload_transferred server_intent_received
  process_event now heartbeat_event s = some ((true, false), s)
  process_event now unexpected_event s = some ((true, false), s)
  process_event now (intent_event (inl intent)) s = some (server_intent_received now intent s)
  process_event now (intent_event (inr err)) s = some (got_malformed_event now err s)
  process_event now (object_event parsed) s =
      let changes = s.current_change_set in
      some (
        (true, false),
        record s {
          current_change_set = record changes {
            events = changes.events ++ object_event parsed ∷ [];
          };
        },
      )
  process_event now (goodbye_event (inl g)) s = some ((true, false), s)
  process_event now (goodbye_event (inr err)) s = some (got_malformed_event now err s)
  process_event now (failure_event (inl e)) s =
      some ((true, false), record s { current_change_set = no_changes })
  process_event now (failure_event (inr err)) s =
      some (got_malformed_event now err (record s { current_change_set = no_changes }))
  process_event now (transferred_event (inl selector)) s = payload_transferred now selector s
  process_event now (transferred_event (inr err)) s = some (got_malformed_event now err s)

  -- The end of the loop's body: the status and the restart.
  unfoldable pub conclude : Handled → StreamProcessor A W
  conclude ((processed, should_restart), s) =
      let s₁ =
        if processed
        then record s { world = destination.update_status valid no_error s.world }
        else s in
      if should_restart then record s₁ { restarts = suc s₁.restarts } else s₁

  -- consumeStream, for an event; nothing is returned where the goroutine panics.
  unfoldable pub handle_event :
      ℕ → StreamEvent A → StreamProcessor A W → Option (StreamProcessor A W)
  unfolding process_event conclude log_connection_result
  handle_event now event s = elim (process_event now event (log_connection_result now true s)) [
    | none ↦ none
    | some handled ↦ some (conclude handled)
  ]

  -- The result says whether to close now.
  unfoldable pub error_handler : ℕ → StreamError → StreamProcessor A W → Bool × StreamProcessor A W
  unfolding log_connection_result log_connection_started
  error_handler now (subscription_error code) s =
      let s₁ = log_connection_result now false s in
      let info : DataSourceErrorInfo = record {
        kind = error_response;
        status_code = code;
        message = "";
        time = now;
      } in
      if check_if_error_is_recoverable_and_log code
      then (let s₂ = log_connection_started now s₁ in
          (false, record s₂ { world = destination.update_status interrupted info s₂.world }))
      else (true, record s₁ { world = destination.update_status off info s₁.world })
  error_handler now (network_failure message) s =
      let s₁ = log_connection_result now false s in
      let info : DataSourceErrorInfo = record {
        kind = network_error;
        status_code = 0;
        message = message;
        time = now;
      } in
      (
        false,
        log_connection_started now
            (record s₁ { world = destination.update_status interrupted info s₁.world }),
      )

  unfoldable pub close_processor : StreamProcessor A W → StreamProcessor A W
  close_processor s =
      if s.closed
      then s
      else record s { closed = true; world = destination.update_status off no_error s.world }

  unfoldable pub bad_request : ℕ → String → StreamProcessor A W → StreamProcessor A W
  unfolding log_connection_result
  bad_request now message s =
      let info : DataSourceErrorInfo = record {
        kind = unknown;
        status_code = 0;
        message = message;
        time = now;
      } in
      record (log_connection_result now false
        (record s { world = destination.update_status off info s.world })) {
          ready = true;
          running = false;
        }

  -- subscribe, up to the call that opens the stream: the request may be refused with a message.
  unfoldable pub subscribe : ℕ → Option String → StreamProcessor A W → StreamProcessor A W
  unfolding bad_request log_connection_started
  subscribe now (some message) s = bad_request now message s
  subscribe now none s = log_connection_started now s
