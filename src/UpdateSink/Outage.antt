-- ===== src/UpdateSink/Outage.antt =====
-- The channels of the tracker of outages: none is closed twice, which would be a panic.
use go_server_sdk.Prelude.{
  member, IsDistinct, ℕ, string_eq, nat_eq, true, false, not, ◌&&◌, ◌||◌, Option, some, List, [],
  ◌∷◌, ◌==◌, ◌<◌, Map, if-elim, ◌≡◌, arith, refl, Option-cases, inl, inr,
}
use go_server_sdk.UpdateSink.Status.{
  DataSourceState, DataSourceErrorInfo, BasicErrorInfo, OutageTracker, new_outage_tracker,
  record_error, close_timeout, begin_outage, interrupted, initializing, track_data_source_state,
  await_timeout,
}

pub record IsTracked (o : OutageTracker) : Type 0 where
  -- The channel that the tracker holds belongs to an outage that lasts, and is open.
  pub lasts : (c : ℕ) → o.timeout_closer ≡ some c → o.in_outage ≡ true
  pub open_channel : (c : ℕ) → o.timeout_closer ≡ some c → member c o.closed ≡ false
  pub made : (c : ℕ) → o.timeout_closer ≡ some c → c < o.channels
  pub closed_made : (c : ℕ) → member c o.closed ≡ true → c < o.channels
  pub closed_once : IsDistinct o.closed

-- What happens to a tracker: a status update, or the end of a goroutine's wait.
pub data TrackerEvent : Type 0 where
  update : (state : DataSourceState) (error : DataSourceErrorInfo) → TrackerEvent
  timeout : TrackerEvent

abbrev pub track : TrackerEvent → OutageTracker → OutageTracker
track (update s e) o = track_data_source_state s e o
track timeout o = (await_timeout o).1

abbrev pub track_all : List TrackerEvent → OutageTracker → OutageTracker
track_all [] o = o
track_all (e ∷ es) o = track_all es (track e o)

record_error-IsTracked :
    (e : DataSourceErrorInfo) (o : OutageTracker) → IsTracked o → IsTracked (record_error e o)
unfolding record_error
record_error-IsTracked e o h = record {
  lasts = h.lasts;
  open_channel = h.open_channel;
  made = h.made;
  closed_made = h.closed_made;
  closed_once = h.closed_once;
}

begin_outage-IsTracked :
    (e : DataSourceErrorInfo) (o : OutageTracker)
    → IsTracked o
    → o.in_outage ≡ false
    → IsTracked (begin_outage e o)
unfolding begin_outage record_error
begin_outage-IsTracked e o h k = record {
  lasts = λ c p. refl;
  open_channel = λ c p. ground (arith, h.closed_made c, nat_eq.beq_iff c o.channels);
  made = λ c p. ground arith;
  closed_made = λ c p. ground (arith, h.closed_made c p);
  closed_once = h.closed_once;
}

close_timeout-IsTracked :
    (o : OutageTracker) → IsTracked o → IsTracked (record (close_timeout o) { in_outage = false })
unfolding close_timeout
close_timeout-IsTracked o h = elim (Option-cases o.timeout_closer) [
  | inl absent ↦ rw absent (record {
    lasts = λ c p. cc;
    open_channel = λ c p. cc;
    made = λ c p. cc;
    closed_made = h.closed_made;
    closed_once = h.closed_once;
  })
  | inr (c, held) ↦ rw held (record {
    lasts = λ j p. cc;
    open_channel = λ j p. cc;
    made = λ j p. cc;
    closed_made = λ j p. ground (arith, h.closed_made j, h.made c held, nat_eq.beq_iff c j);
    closed_once = (h.open_channel c held, h.closed_once);
  })
]

track-IsTracked : (e : TrackerEvent) (o : OutageTracker) → IsTracked o → IsTracked (track e o)
unfolding track_data_source_state await_timeout
track-IsTracked (update s e) o h =
    if-elim IsTracked (o.outage_logging_timeout == 0) _ _ (λ _. h)
      (λ _.
        if-elim IsTracked
          (s == interrupted || not (e.kind == "") || (s == initializing && o.in_outage)) _ _
          (λ _.
            if-elim IsTracked o.in_outage _ _ (λ _. record_error-IsTracked e o h)
              (λ over. begin_outage-IsTracked e o h over))
          (λ _. close_timeout-IsTracked o h))
track-IsTracked timeout o h =
    if-elim (λ (x : Option (Map BasicErrorInfo ℕ) × OutageTracker). IsTracked x.1) o.in_outage _ _
      (λ _. record {
        lasts = λ c p. cc;
        open_channel = λ c p. cc;
        made = λ c p. cc;
        closed_made = h.closed_made;
        closed_once = h.closed_once;
      })
      (λ _. h)

track_all-IsTracked :
    (es : List TrackerEvent) (o : OutageTracker) → IsTracked o → IsTracked (track_all es o)
track_all-IsTracked [] o h = h
track_all-IsTracked (e ∷ es) o h = track_all-IsTracked es (track e o) (track-IsTracked e o h)

-- From a new tracker, whatever status updates and timeouts follow, no channel is closed twice, and
-- the channel that the tracker holds is open and belongs to an outage that lasts.
pub new_outage_tracker-IsTracked :
    (timeout_length : ℕ) (es : List TrackerEvent)
    → IsTracked (track_all es (new_outage_tracker timeout_length))
unfolding new_outage_tracker
new_outage_tracker-IsTracked timeout_length es = track_all-IsTracked es _ (record {
  lasts = λ c p. cc;
  open_channel = λ c p. cc;
  made = λ c p. cc;
  closed_made = λ c p. cc;
  closed_once = tt;
})
