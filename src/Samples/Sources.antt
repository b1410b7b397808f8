-- ===== src/Samples/Sources.antt =====
-- The polling and the streaming data source over a sink that logs its calls and refuses data sets.
use go_server_sdk.Prelude.{
  inl, none, some, pos, ◌++◌, String, suc, true, false, ◌&&◌, ◌||◌, List, [], ◌∷◌, if◌then◌else◌,
  ◌≡◌, refl,
}
use go_server_sdk.UpdateSink.Status.{valid, no_error}
use go_server_sdk.DataSource.{DataSourceUpdateSink, check_if_error_is_recoverable_and_log}
use go_server_sdk.DataSource.Polling.{
  http_status, failed, fetched, PollingProcessor, tick, poll, poll_succeeded,
}
use go_server_sdk.DataSource.PollingRuns.{
  PollingStep, ticked, quit, IsNotified, run_polling, run_polling-IsNotified,
}
use go_server_sdk.DataSource.Streaming.{
  Event, put_event, patch_event, malformed, unexpected, subscription_error, StreamProcessor,
  handle_event,
}
use go_server_sdk.DataSource.StreamingRuns.{
  is_put, effect, is_lost, handle_event_lem, StreamStep, received, store_status, stream_failed,
  IsReady, run_streaming, run_streaming-IsReady,
}
use go_server_sdk.DataSource.Polling
use go_server_sdk.DataSource.Streaming
use go_server_sdk.Proto.{Event as ChangeEvent, put_object, ServerIntent, Payload, Selector}
use go_server_sdk.DataSource.Fdv2.{DataDestination, intent_event, transferred_event, no_changes}
use go_server_sdk.DataSource.Transfers.{
  object_events, run_events, validated, IsTransferred, run_events-transfer, run_events-panic,
}
use go_server_sdk.DataSource.Fdv2
use go_server_sdk.Samples.{Item}

abbrev refusing : DataSourceUpdateSink Item (List String)
refusing = record {
  init = λ all_data w. (false, "init" ∷ w);
  upsert = λ kind key item w. (true, key ∷ w);
  update_status = λ state info w. state ∷ w;
}

-- A data set that the store refuses: the poll counts as a success, and the status is VALID.
abbrev refused : PollingProcessor (List String)
refused = tick refusing 5 (fetched false []) (Polling.start [])

refused_poll : (refused.world ≡ "VALID" ∷ "init" ∷ []) × (refused.is_initialized ≡ true)
unfolding tick poll poll_succeeded Polling.start
refused_poll = (refl, refl)

-- A failure that passes, a poll that succeeds, a failure for good, and the end.
abbrev ticks : List (PollingStep Item)
ticks =
    ticked 1 (failed (http_status 503 "busy"))
    ∷ ticked 2 (fetched false [])
    ∷ ticked 3 (failed (http_status 401 "key"))
    ∷ PollingStep.closing
    ∷ quit
    ∷ []

run_polling-IsNotified_example :
    IsNotified (true, false) (run_polling refusing ticks (Polling.start []))
run_polling-IsNotified_example = run_polling-IsNotified refusing ticks []

abbrev processor : StreamProcessor (List String)
processor = Streaming.start false true []

abbrev no_data : Event Item
no_data = put_event []

handle_event_lem_example :
    ((handle_event refusing 4 no_data processor).restarts ≡ (
      if is_lost refusing 4 no_data processor then suc processor.restarts else processor.restarts))
    × ((handle_event refusing 4 no_data processor).world ≡ (
        if is_lost refusing 4 no_data processor
        then (effect refusing 4 no_data processor.world).1
        else refusing.update_status valid no_error (effect refusing 4 no_data processor.world).1))
    × ((handle_event refusing 4 no_data processor).is_initialized ≡ (
        is_put no_data && (effect refusing 4 no_data processor.world).0
        || processor.is_initialized))
handle_event_lem_example = handle_event_lem refusing 4 no_data processor

-- A store that is monitored refuses a data set: the status is VALID, and nothing is restarted.
abbrev kept_waiting : StreamProcessor (List String)
kept_waiting = handle_event refusing 4 no_data (Streaming.start true true [])

refused_event : (kept_waiting.world ≡ "VALID" ∷ "init" ∷ []) × (kept_waiting.restarts ≡ 0)
unfolding handle_event Streaming.start
refused_event = (refl, refl)

-- The connection succeeds, no data comes, and the next attempt is refused for good.
abbrev unauthorized : List (StreamStep Item)
unauthorized = received 1 unexpected ∷ stream_failed 2 (subscription_error 401) ∷ []

abbrev given_up : StreamProcessor (List String)
given_up = run_streaming refusing unauthorized processor

unauthorized_after_connection :
    (given_up.running ≡ false) × (given_up.ready ≡ false) × (given_up.world ≡ "OFF" ∷ "VALID" ∷ [])
unfolding run_streaming handle_event Streaming.start check_if_error_is_recoverable_and_log
unauthorized_after_connection = (refl, refl, refl)

run_streaming-IsReady_example : IsReady (
    run_streaming refusing
      (received 1 (malformed "x") ∷ store_status true true ∷ unauthorized)
      (Streaming.start true false []))
run_streaming-IsReady_example =
    run_streaming-IsReady refusing
      (received 1 (malformed "x") ∷ store_status true true ∷ unauthorized) true false []

abbrev logging : DataDestination Item (List String)
logging = record {
  set_basis = λ events selector persist w. "basis" ∷ w;
  apply_delta = λ events selector persist w. "delta" ∷ w;
  update_status = λ state info w. state ∷ w;
}

abbrev flag_a : ChangeEvent Item
flag_a = put_object (record { version = pos 1; kind = "flag"; key = "a"; object = some [] })

abbrev selector : Selector
selector = record { state = "p:1"; version = pos 1 }

abbrev payload : Payload
payload = record { id = "p"; target = pos 1; code = "xfer-full"; reason = "" }

abbrev intent : ServerIntent
intent = record { payloads = payload ∷ [] }

abbrev connected : Fdv2.StreamProcessor Item (List String)
connected = Fdv2.start false []

run_events-transfer_example :
    (s' : Fdv2.StreamProcessor Item (List String)) × (run_events logging 3
        (intent_event (inl intent) ∷ object_events (flag_a ∷ [])
          ++ transferred_event (inl selector) ∷ [])
        connected
      ≡ some s')
    × IsTransferred logging 3 "xfer-full"
        (flag_a ∷ [])
        selector
        (validated logging 3 (flag_a ∷ []) ("VALID" ∷ []))
        connected
        s'
unfolding Fdv2.start
run_events-transfer_example =
    run_events-transfer logging 3 intent payload [] (flag_a ∷ []) selector connected refl refl

run_events-panic_example :
    run_events logging 3
      (object_events (flag_a ∷ []) ++ transferred_event (inl selector) ∷ [])
      connected
    ≡ none
unfolding Fdv2.start
run_events-panic_example = run_events-panic logging 3 (flag_a ∷ []) selector connected refl
