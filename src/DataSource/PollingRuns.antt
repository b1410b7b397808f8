-- ===== src/DataSource/PollingRuns.antt =====
-- Runs of the polling data source of internal/datasource/polling_data_source.go.
use go_server_sdk.Prelude.{
  Bool, true, false, leb, ltb, ◌==◌, nat_eq, ◌&&◌, ℕ, not, ◌||◌, List, [], ◌∷◌, if◌then◌else◌,
  if-elim, ◌≡◌, refl, arith,
}
use go_server_sdk.DataSource.{
  DataSourceUpdateSink, check_if_error_is_recoverable_and_log, is_http_error_recoverable,
}
use go_server_sdk.DataSource.Polling.{
  RequestError, http_status, malformed_json, other_error, Response, failed, fetched,
  PollingProcessor, start, finish, close_processor, poll, interrupt, poll_failed, poll_succeeded,
  tick,
}

-- What happens to a polling processor: a tick, with what the requester returns; the goroutine reads that quit
-- is closed; a call of Close.
pub data PollingStep (A : Type 0) : Type 0 where
  ticked : (now : ℕ) (response : Response A) → PollingStep A
  quit closing : PollingStep A

-- A failure for good: an HTTP status from 400 to 499, other than 400, 408 and 429.
abbrev pub is_permanent : RequestError → Bool
is_permanent (http_status code _) =
    leb 400 code && ltb code 500 && not (code == 400) && not (code == 408) && not (code == 429)
is_permanent _ = false

-- What steps make of a goroutine: whether a poll has succeeded while it ran, and whether it still runs. It ends
-- with a failure for good, and when it reads that quit is closed.
abbrev pub polled : {A : Type 0} → List (PollingStep A) → Bool → Bool → Bool → Bool × Bool
polled [] is_closed runs succeeded = (succeeded, runs)
polled (ticked _ (fetched _ _) ∷ xs) is_closed runs succeeded =
    polled xs is_closed runs (runs || succeeded)
polled (ticked _ (failed e) ∷ xs) is_closed runs succeeded =
    polled xs is_closed (runs && not (is_permanent e)) succeeded
polled (quit ∷ xs) is_closed runs succeeded = polled xs is_closed (runs && not is_closed) succeeded
polled (closing ∷ xs) is_closed runs succeeded = polled xs true runs succeeded

-- The data source is initialized just when a poll has succeeded, and the client is told that it need not wait any
-- longer just when one has or the goroutine has ended.
abbrev pub IsNotified : {W : Type 0} → Bool × Bool → PollingProcessor W → Type 0
IsNotified (succeeded, runs) p =
    (p.is_initialized ≡ succeeded) × (p.running ≡ runs) × (p.notified ≡ (succeeded || not runs))

-- What every step keeps.
abbrev Follows : {W : Type 0} → Bool → Bool → Bool → PollingProcessor W → Type 0
Follows is_closed runs succeeded p =
    (p.closed ≡ is_closed) × (p.set_initialized ≡ succeeded) × IsNotified (succeeded, runs) p

module _ {A W : Type 0} (sink : DataSourceUpdateSink A W) where
  -- A goroutine that has returned reads nothing, and quit is read only when it is closed.
  unfoldable pub polling_step : PollingStep A → PollingProcessor W → PollingProcessor W
  unfolding tick finish close_processor
  polling_step (ticked now response) p = if p.running then tick sink now response p else p
  polling_step quit p = if p.closed then finish p else p
  polling_step closing p = close_processor p

  unfoldable pub run_polling : List (PollingStep A) → PollingProcessor W → PollingProcessor W
  unfolding polling_step
  run_polling [] p = p
  run_polling (x ∷ xs) p = run_polling xs (polling_step x p)

  poll_failed-Follows :
      (now : ℕ) (e : RequestError) (c s : Bool) (p : PollingProcessor W)
      → Follows c true s p
      → Follows c (not (is_permanent e)) s (poll_failed sink now e p)
  unfolding poll_failed finish interrupt check_if_error_is_recoverable_and_log
      is_http_error_recoverable
  poll_failed-Follows now (http_status code message) c s p h = ground (arith, h)
  poll_failed-Follows now (malformed_json message) c s p h = h
  poll_failed-Follows now (other_error message) c s p h = h

  poll_succeeded-Follows :
      (c s : Bool) (p : PollingProcessor W)
      → Follows c true s p
      → Follows c true true (poll_succeeded sink p)
  unfolding poll_succeeded
  poll_succeeded-Follows c s p h = ground (arith, h)

  run_keeps-IsNotified :
      (xs : List (PollingStep A)) (c r s : Bool) (p : PollingProcessor W)
      → Follows c r s p
      → IsNotified (polled xs c r s) (run_polling xs p)
  unfolding run_polling polling_step tick poll finish close_processor
  run_keeps-IsNotified [] c r s p h = h.2
  run_keeps-IsNotified (ticked now (fetched cached all_data) ∷ xs) c true s p h =
      run_keeps-IsNotified xs c true true _ (
        if-elim (Follows c true true) p.running _ _ (λ e. poll_succeeded-Follows c s _ h)
          (λ e. cc (e, h.2.1)))
  run_keeps-IsNotified (ticked now (fetched cached all_data) ∷ xs) c false s p h =
      run_keeps-IsNotified xs c false s _
        (if-elim (Follows c false s) p.running _ _ (λ e. cc (e, h.2.1)) (λ e. h))
  run_keeps-IsNotified (ticked now (failed x) ∷ xs) c true s p h =
      run_keeps-IsNotified xs c (not (is_permanent x)) s _ (
        if-elim (Follows c (not (is_permanent x)) s) p.running _ _
          (λ e. poll_failed-Follows now x c s _ h) (λ e. cc (e, h.2.1)))
  run_keeps-IsNotified (ticked now (failed x) ∷ xs) c false s p h =
      run_keeps-IsNotified xs c false s _
        (if-elim (Follows c false s) p.running _ _ (λ e. cc (e, h.2.1)) (λ e. h))
  run_keeps-IsNotified (quit ∷ xs) c r s p h =
      run_keeps-IsNotified xs c (r && not c) s _ (ground (arith, h))
  run_keeps-IsNotified (closing ∷ xs) c r s p h =
      run_keeps-IsNotified xs true r s _ (refl, h.1, h.2)

  -- After any ticks, calls of Close and reads of the quit channel, a polling data source is initialized just when a
  -- poll has succeeded while the goroutine ran, and the channel closeWhenReady is closed just when one has or
  -- the goroutine has returned: by a failure for good, or by reading that quit is closed.
  pub run_polling-IsNotified :
      (xs : List (PollingStep A)) (w : W)
      → IsNotified (polled xs false true false) (run_polling xs (start w))
  unfolding start
  run_polling-IsNotified xs w =
      run_keeps-IsNotified xs false true false _ (refl, refl, (refl, refl, refl))
