-- ===== src/DataSource/Polling.antt =====
-- internal/datasource/polling_data_source.go, the goroutine that Start makes as one step for each message
-- that it reads. What the requester returns is an argument of the step.
use go_server_sdk.Prelude.{ℕ, String, Bool, true, false, Option, none, some, List, if◌then◌else◌}
use go_server_sdk.Types.{Collection}
use go_server_sdk.UpdateSink.Status.{DataSourceErrorInfo, no_error, valid, interrupted, off}
use go_server_sdk.DataSource.{
  DataSourceUpdateSink, check_if_error_is_recoverable_and_log, network_error, error_response,
  invalid_data,
}

-- An error of a request: an httpStatusError, a malformedJSONError or any other one.
pub data RequestError : Type 0 where
  http_status : (code : ℕ) (message : String) → RequestError
  malformed_json other_error : (message : String) → RequestError

-- What Request returns.
pub data Response (A : Type 0) : Type 0 where
  failed : RequestError → Response A
  fetched : (cached : Bool) (all_data : List (Collection A)) → Response A

-- `notified` says that readyOnce has run, so that closeWhenReady is closed; `set_initialized` and `closed`
-- that setInitializedOnce and closeOnce have; `running` that the goroutine has not returned.
pub record PollingProcessor (W : Type 0) : Type 0 where
  pub is_initialized : Bool
  pub set_initialized : Bool
  pub closed : Bool
  pub notified : Bool
  pub running : Bool
  pub world : W

-- Once started.
unfoldable pub start : {W : Type 0} → W → PollingProcessor W
start w = record {
  is_initialized = false;
  set_initialized = false;
  closed = false;
  notified = false;
  running = true;
  world = w;
}

-- The return of the goroutine, with its deferred call of notifyReady.
unfoldable pub finish : {W : Type 0} → PollingProcessor W → PollingProcessor W
finish p = record p { notified = true; running = false }

unfoldable pub close_processor : {W : Type 0} → PollingProcessor W → PollingProcessor W
close_processor p = record p { closed = true }

module _ {A W : Type 0} (sink : DataSourceUpdateSink A W) where
  unfoldable pub poll : Response A → W → Option RequestError × W
  poll (failed e) w = (some e, w)
  poll (fetched cached all_data) w = (none, if cached then w else (sink.init all_data w).1)

  -- The status update for an error of the kind `kind` without a status code.
  unfoldable pub interrupt : ℕ → String → String → PollingProcessor W → PollingProcessor W
  interrupt now kind message p =
      let info : DataSourceErrorInfo = record {
        kind = kind;
        status_code = 0;
        message = message;
        time = now;
      } in
      record p { world = sink.update_status interrupted info p.world }

  unfoldable pub poll_failed : ℕ → RequestError → PollingProcessor W → PollingProcessor W
  unfolding interrupt finish
  poll_failed now (http_status code message) p =
      let info : DataSourceErrorInfo = record {
        kind = error_response;
        status_code = code;
        message = "";
        time = now;
      } in
      if check_if_error_is_recoverable_and_log code
      then record p { world = sink.update_status interrupted info p.world }
      else finish (record p { world = sink.update_status off info p.world })
  poll_failed now (malformed_json message) p = interrupt now invalid_data message p
  poll_failed now (other_error message) p = interrupt now network_error message p

  unfoldable pub poll_succeeded : PollingProcessor W → PollingProcessor W
  poll_succeeded p =
      let q = record p { world = sink.update_status valid no_error p.world } in
      if p.set_initialized
      then q
      else record q { set_initialized = true; is_initialized = true; notified = true }

  unfoldable pub tick : ℕ → Response A → PollingProcessor W → PollingProcessor W
  unfolding poll poll_failed poll_succeeded
  tick now response p =
      let (err, w) = poll response p.world in
      let q = record p { world = w } in
      elim err [ some e ↦ poll_failed now e q | none ↦ poll_succeeded q ]
