-- ===== src/UpdateSink/Failures.antt =====
-- Init and Upsert of the sink when the store reports an error.
use go_server_sdk.Prelude.{
  ℕ, String, string_eq, true, false, some, List, ◌∷◌, arith, ◌≡◌, refl, ap, ◌∙◌, ◌==◌,
  if◌then◌else◌,
}
use go_server_sdk.Types.{DataKind, ItemDescriptor, Collection, DataStore}
use go_server_sdk.Toposort.{LdModel, MapOrder, sort}
use go_server_sdk.UpdateSink.Status.{
  DataSourceErrorInfo, initializing, interrupted, store_error, effective_state,
}
use go_server_sdk.UpdateSink.Runs.{update_status-state, update_status-last_error}
use go_server_sdk.UpdateSink.{UpdateSink, maybe_update_error, upsert, init}
use go_server_sdk.UpdateSink.FullData.{queried}

-- What a store error leaves: the state is INTERRUPTED, or still INITIALIZING, the error is recorded
-- as the last one, and only the first of a sequence of failures is logged.
pub record IsFailure {S : Type 0} (message : String) (d r : UpdateSink S) : Type 0 where
  pub state :
      r.statuses.current_status.state
      ≡ (if d.statuses.current_status.state == initializing then initializing else interrupted)
  pub error_kind : r.statuses.current_status.last_error.kind ≡ store_error
  pub error_message : r.statuses.current_status.last_error.message ≡ message
  pub failed : r.last_store_update_failed ≡ true
  pub logged :
      r.warnings ≡ (if d.last_store_update_failed then d.warnings else message ∷ d.warnings)
  pub same_events : r.flag_change_events ≡ d.flag_change_events
  pub same_graph : r.dependency_tracker ≡ d.dependency_tracker

maybe_update_error-IsFailure :
    {S : Type 0} (now : ℕ) (message : String) (d : UpdateSink S) (s : S)
    → IsFailure message d (maybe_update_error now (some message) (record d { store = s })).1
unfolding maybe_update_error effective_state
maybe_update_error-IsFailure now message d s = record {
  state = update_status-state now interrupted err d.statuses ∙ ground arith;
  error_kind = ap (λ x. x.kind) (update_status-last_error now interrupted err d.statuses);
  error_message = ap (λ x. x.message) (update_status-last_error now interrupted err d.statuses);
  failed = refl;
  logged = refl;
  same_events = refl;
  same_graph = refl;
}
  where
    err : DataSourceErrorInfo
    err = record { kind = store_error; status_code = 0; message = message; time = now }

module _ {A S : Type 0} (model : LdModel A) (order : MapOrder) (store : DataStore A S) where
  init_eq :
      (now : ℕ) (all_data : List (Collection A)) (d : UpdateSink S) (s : S) (message : String)
      → store.init (sort model order all_data) (queried model order store d).store
        ≡ (some message, s)
      → init model order store now all_data d ≡ (
        false,
        (maybe_update_error now
            (some message)
            (record (queried model order store d) { store = s })).1,
      )
  unfolding init maybe_update_error
  init_eq now all_data d s message h = rw h refl

  upsert_eq :
      (now : ℕ) (kind : DataKind) (key : String) (item : ItemDescriptor A) (d : UpdateSink S)
      (s : S) (message : String)
      → store.upsert kind key item d.store ≡ ((false, some message), s)
      → upsert model order store now kind key item d
        ≡ (false, (maybe_update_error now (some message) (record d { store = s })).1)
  unfolding upsert maybe_update_error
  upsert_eq now kind key item d s message h = rw h refl

  -- An Init that the store refuses returns false; the status, the log, the events and the graph are
  -- then as after a store error.
  init_refused :
      (now : ℕ) (all_data : List (Collection A)) (d : UpdateSink S) (s : S) (message : String)
      → store.init (sort model order all_data) (queried model order store d).store
        ≡ (some message, s)
      → ((init model order store now all_data d).0 ≡ false)
        × IsFailure message (queried model order store d) (init model order store now all_data d).1
  init_refused now all_data d s message h =
      rw (init_eq now all_data d s message h)
        (refl, maybe_update_error-IsFailure now message (queried model order store d) s)

  -- An Upsert that the store refuses returns false; the status, the log, the events and the graph are
  -- then as after a store error.
  pub upsert_refused :
      (now : ℕ) (kind : DataKind) (key : String) (item : ItemDescriptor A) (d : UpdateSink S)
      (s : S) (message : String)
      → store.upsert kind key item d.store ≡ ((false, some message), s)
      → ((upsert model order store now kind key item d).0 ≡ false)
        × IsFailure message d (upsert model order store now kind key item d).1
  upsert_refused now kind key item d s message h =
      rw (upsert_eq now kind key item d s message h)
        (refl, maybe_update_error-IsFailure now message d s)
