-- ===== src/Samples/Sink.antt =====
-- The update sink over an in-memory store of the sample data.
use go_server_sdk.Prelude.{
  List, [], ◌∷◌, Bool, true, false, ◌≡◌, refl, ◌↔◌, none, some, pos, lookup, insert, has_key,
}
use go_server_sdk.Types.{features, DataStore}
use go_server_sdk.Toposort.{Vertex, vertex_eq, sort}
use go_server_sdk.Dependencies.{new_dependency_tracker, neighbors_of, reset}
use go_server_sdk.Dependencies.Graph.{IsMirrored, reset-IsMirrored}
use go_server_sdk.MemoryStore.{upsert_existing}
use go_server_sdk.MemoryStore.Contents.{basis_view}
use go_server_sdk.InMemoryDataStore.{
  InMemoryDataStore, new_in_memory_data_store, init as store_init, upsert as store_upsert,
}
use go_server_sdk.UpdateSink.Status.{
  DataSourceErrorInfo, no_error, Statuses, new_outage_tracker, initializing, interrupted, valid,
}
use go_server_sdk.UpdateSink.Runs.{
  Call, run, IsAnnounced, run-last_error, run-initializing, run-IsAnnounced,
}
use go_server_sdk.UpdateSink.Outage.{
  IsTracked, update, timeout, track_all, new_outage_tracker-IsTracked,
}
use go_server_sdk.UpdateSink.{UpdateSink, init, upsert}
use go_server_sdk.UpdateSink.Effects.{told, refers_after, upsert_tells}
use go_server_sdk.UpdateSink.FullData.{queried, IsTold, init_tells}
use go_server_sdk.UpdateSink.Graph.{refers_in}
use go_server_sdk.UpdateSink.Held.{held}
use go_server_sdk.UpdateSink.Failures.{IsFailure, upsert_refused}
use go_server_sdk.Samples.{Item, sample_model, sample_order, sample_store, flag, full_data}

abbrev first_statuses : Statuses
first_statuses = record {
  current_status = record { state = initializing; state_since = 0; last_error = no_error };
  outage_tracker = new_outage_tracker 60;
  status_events = [];
}

abbrev network : DataSourceErrorInfo
network = record { kind = "NETWORK_ERROR"; status_code = 0; message = "refused"; time = 5 }

-- An outage, the recovery, and an outage again.
abbrev calls : List Call
calls =
    record { now = 5; state = interrupted; error = network }
    ∷ record { now = 8; state = valid; error = no_error }
    ∷ record { now = 9; state = interrupted; error = network }
    ∷ []

abbrev one_call : List Call
one_call = record { now = 5; state = interrupted; error = network } ∷ []

run-last_error_example : (run calls first_statuses).current_status.last_error ≡ network
run-last_error_example = run-last_error calls first_statuses

run-initializing_example : (run one_call first_statuses).current_status.state ≡ initializing
run-initializing_example = run-initializing one_call first_statuses refl refl

run-IsAnnounced_example : IsAnnounced (run calls first_statuses)
run-IsAnnounced_example = run-IsAnnounced calls first_statuses tt

new_outage_tracker-IsTracked_example : IsTracked (
    track_all
      (update interrupted network
        ∷ update valid no_error
        ∷ update interrupted network
        ∷ timeout
        ∷ [])
      (new_outage_tracker 60))
new_outage_tracker-IsTracked_example =
    new_outage_tracker-IsTracked 60 (
      update interrupted network
      ∷ update valid no_error
      ∷ update interrupted network
      ∷ timeout
      ∷ [])

abbrev sink : UpdateSink (InMemoryDataStore Item)
sink = record {
  store = new_in_memory_data_store;
  dependency_tracker = new_dependency_tracker;
  statuses = first_statuses;
  last_store_update_failed = false;
  has_listeners = true;
  flag_change_events = [];
  warnings = [];
}

abbrev with_b : UpdateSink (InMemoryDataStore Item)
with_b = (upsert sample_model sample_order sample_store 1 features "b" (flag 1 ("a" ∷ [])) sink).1

-- The same sink, before the listeners have heard of anything.
abbrev quiet : UpdateSink (InMemoryDataStore Item)
quiet = record with_b { flag_change_events = [] }

sink-IsMirrored : IsMirrored sink.dependency_tracker
unfolding reset
sink-IsMirrored = reset-IsMirrored sink.dependency_tracker

quiet-IsMirrored : IsMirrored quiet.dependency_tracker
unfolding new_in_memory_data_store store_upsert lookup upsert_existing
quiet-IsMirrored =
    let (told_b, edges, both) =
      upsert_tells sample_model sample_order sample_store 1 features "b" (flag 1 ("a" ∷ [])) sink
        (sample_store.upsert features "b" (flag 1 ("a" ∷ [])) sink.store).1 "b" refl refl refl
        sink-IsMirrored in
    both

abbrev with_a : UpdateSink (InMemoryDataStore Item)
with_a = (upsert sample_model sample_order sample_store 2 features "a" (flag 1 []) quiet).1

upsert_tells_example :
    ((told "b" with_a.flag_change_events ≡ true) ↔ (
      (c : Vertex → Bool)
      → ((v w : Vertex)
          → c v ≡ true
          → refers_after sample_model sample_order sample_store features "a"
              (flag 1 [])
              quiet.dependency_tracker
              w
              v
            ≡ true
          → c w ≡ true)
      → c (features, "a") ≡ true
      → c (features, "b") ≡ true))
    × ((v w : Vertex)
        → has_key w (neighbors_of with_a.dependency_tracker.dependencies_to v)
          ≡ refers_after sample_model sample_order sample_store features "a"
              (flag 1 [])
              quiet.dependency_tracker
              w
              v)
    × IsMirrored with_a.dependency_tracker
unfolding new_in_memory_data_store store_upsert lookup upsert_existing insert upsert
upsert_tells_example =
    upsert_tells sample_model sample_order sample_store 2 features "a" (flag 1 []) quiet
      (sample_store.upsert features "a" (flag 1 []) quiet.store).1 "b" refl refl refl
      quiet-IsMirrored

init_tells_example :
    ((told "b" (init sample_model sample_order sample_store 1 full_data sink).1.flag_change_events
        ≡ true)
      ↔ IsTold sample_model sample_order sample_store
          (refers_in sample_model sample_order sample_store full_data)
          (held sample_model sample_order sample_store sink.store)
          (basis_view full_data)
          "b")
    × ((v w : Vertex)
        → has_key w (
            neighbors_of
              (init sample_model sample_order sample_store 1 full_data
                sink).1.dependency_tracker.dependencies_to
              v)
          ≡ refers_in sample_model sample_order sample_store full_data w v)
    × IsMirrored (init sample_model sample_order sample_store 1 full_data sink).1.dependency_tracker
unfolding store_init
init_tells_example =
    init_tells sample_model sample_order sample_store 1 full_data sink
      (sample_store.init (sort sample_model sample_order full_data)
        (queried sample_model sample_order sample_store sink).store).1
      "b" refl refl refl

-- A store that refuses everything.
abbrev broken : DataStore Item Unit
broken = record {
  init = λ cs s. (some "full", s);
  get = λ k j s. ((record { version = pos 0; item = none }, some "down"), s);
  get_all = λ k s. (([], some "down"), s);
  upsert = λ k j i s. ((false, some "full"), s);
  is_initialized = λ s. (false, s);
  is_status_monitoring_enabled = true;
  close = λ s. (none, s);
}

abbrev broken_sink : UpdateSink Unit
broken_sink = record {
  store = tt;
  dependency_tracker = new_dependency_tracker;
  statuses = first_statuses;
  last_store_update_failed = false;
  has_listeners = false;
  flag_change_events = [];
  warnings = [];
}

upsert_refused_example :
    ((upsert sample_model sample_order broken 1 features "a" (flag 1 []) broken_sink).0 ≡ false)
    × IsFailure "full" broken_sink
        (upsert sample_model sample_order broken 1 features "a" (flag 1 []) broken_sink).1
upsert_refused_example =
    upsert_refused sample_model sample_order broken 1 features "a" (flag 1 []) broken_sink tt "full"
      refl
