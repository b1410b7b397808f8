-- ===== src/UpdateSink/Status.antt =====
-- The data source status of internal/datasource/data_source_update_sink_impl.go and
-- interfaces/data_source_status_provider.go, and the tracker of outages.
-- The two kinds of constants are Go strings. A time is a number of nanoseconds, and `now` is what
-- time.Now() returns.
use go_server_sdk.Prelude.{
  ℕ, suc, String, string_eq, nat_eq, Bool, true, false, not, ◌&&◌, ◌||◌, Option, none, some, List,
  [], ◌∷◌, Eq, ◌==◌, Map, lookup, insert, or_else, if◌then◌else◌, ◌↔◌, ◌≡◌, arith,
}

abbrev pub DataSourceState : Type 0
DataSourceState = String

abbrev pub initializing : DataSourceState
initializing = "INITIALIZING"

abbrev pub valid : DataSourceState
valid = "VALID"

abbrev pub interrupted : DataSourceState
interrupted = "INTERRUPTED"

abbrev pub off : DataSourceState
off = "OFF"

abbrev pub store_error : String
store_error = "STORE_ERROR"

pub record DataSourceErrorInfo : Type 0 where
  pub kind : String
  pub status_code : ℕ
  pub message : String
  pub time : ℕ

-- The zero value.
abbrev pub no_error : DataSourceErrorInfo
no_error = record { kind = ""; status_code = 0; message = ""; time = 0 }

pub record DataSourceStatus : Type 0 where
  pub state : DataSourceState
  pub state_since : ℕ
  pub last_error : DataSourceErrorInfo

-- The basic properties of an error, which key the counts: its Kind and its StatusCode.
abbrev pub BasicErrorInfo : Type 0
BasicErrorInfo = String × ℕ

abbrev pub basic_beq : BasicErrorInfo → BasicErrorInfo → Bool
basic_beq (k, c) (l, d) = string_eq.beq k l && nat_eq.beq c d

pub basic_beq_iff : (a b : BasicErrorInfo) → (basic_beq a b ≡ true) ↔ (a ≡ b)
basic_beq_iff (k, c) (l, d) = ground (arith, string_eq.beq_iff k l, nat_eq.beq_iff c d)

instance abbrev pub basic_eq : Eq BasicErrorInfo
basic_eq = record { beq = basic_beq; beq_iff = basic_beq_iff }

-- Each outage makes a channel and starts a goroutine that waits on it: they are numbered in the order
-- in which they are made, `channels` is their number and `closed` lists the closed ones. A count is
-- a Go `int`, here without the bound that no outage reaches.
pub record OutageTracker : Type 0 where
  pub outage_logging_timeout : ℕ
  pub in_outage : Bool
  pub error_counts : Map BasicErrorInfo ℕ
  pub timeout_closer : Option ℕ
  pub channels : ℕ
  pub closed : List ℕ

unfoldable pub new_outage_tracker : ℕ → OutageTracker
new_outage_tracker timeout = record {
  outage_logging_timeout = timeout;
  in_outage = false;
  error_counts = [];
  timeout_closer = none;
  channels = 0;
  closed = [];
}

unfoldable pub record_error : DataSourceErrorInfo → OutageTracker → OutageTracker
record_error new_error o =
    let basic : BasicErrorInfo = (new_error.kind, new_error.status_code) in
    record o {
      error_counts = insert basic (suc (or_else (lookup basic o.error_counts) 0)) o.error_counts;
    }

-- `close(o.timeoutCloser)`, if it is not nil.
unfoldable pub close_timeout : OutageTracker → OutageTracker
close_timeout o = elim o.timeout_closer [
  | none ↦ o
  | some c ↦ record o { timeout_closer = none; closed = c ∷ o.closed }
]

unfoldable pub begin_outage : DataSourceErrorInfo → OutageTracker → OutageTracker
unfolding record_error
begin_outage new_error o =
    let recorded = record_error new_error (record o { in_outage = true; error_counts = [] }) in
    record recorded { timeout_closer = some o.channels; channels = suc o.channels }

unfoldable pub track_data_source_state :
    DataSourceState → DataSourceErrorInfo → OutageTracker → OutageTracker
unfolding record_error close_timeout begin_outage
track_data_source_state new_state new_error o =
    if o.outage_logging_timeout == 0
    then o
    else if new_state == interrupted
        || not (new_error.kind == "")
        || (new_state == initializing && o.in_outage)
    then (if o.in_outage then record_error new_error o else begin_outage new_error o)
    else (let closed = close_timeout o in record closed { in_outage = false })

-- The goroutine's branch for the timeout: the counts that it logs, if the outage still lasts.
unfoldable pub await_timeout : OutageTracker → Option (Map BasicErrorInfo ℕ) × OutageTracker
await_timeout o =
    if o.in_outage then (some o.error_counts, record o { timeout_closer = none }) else (none, o)

-- What the sink keeps about the status, with the values that it has broadcast, the last one first.
pub record Statuses : Type 0 where
  pub current_status : DataSourceStatus
  pub outage_tracker : OutageTracker
  pub status_events : List DataSourceStatus

-- The state that maybeUpdateStatus takes the given one for.
unfoldable pub effective_state : DataSourceState → DataSourceState → DataSourceState
effective_state new_state old_state =
    if new_state == interrupted && old_state == initializing then initializing else new_state

unfoldable pub maybe_update_status :
    ℕ → DataSourceState → DataSourceErrorInfo → Statuses → Option DataSourceStatus × Statuses
unfolding effective_state
maybe_update_status now given new_error d =
    let old_status = d.current_status in
    let new_state = effective_state given old_status.state in
    if new_state == old_status.state && new_error.kind == ""
    then (none, d)
    else (let status : DataSourceStatus = record {
      state = new_state;
      state_since = if new_state == old_status.state then old_status.state_since else now;
      last_error = if new_error.kind == "" then old_status.last_error else new_error;
    } in
        (
          some status,
          record d {
            current_status = status;
            outage_tracker = track_data_source_state new_state new_error d.outage_tracker;
          },
        ))

-- Broadcast, for an update that changed the status.
unfoldable pub broadcast_status : Option DataSourceStatus × Statuses → Statuses
broadcast_status (none, d) = d
broadcast_status (some status, d) = record d { status_events = status ∷ d.status_events }

unfoldable pub update_status : ℕ → DataSourceState → DataSourceErrorInfo → Statuses → Statuses
unfolding maybe_update_status broadcast_status
update_status now new_state new_error d =
    if new_state == "" then d else broadcast_status (maybe_update_status now new_state new_error d)
