-- ===== src/Persistent/Poller.antt =====
-- internal/datastore/data_store_status_poller.go, data_store_update_sink_impl.go, and the status of
-- interfaces/data_store_status_provider.go.
-- The goroutines that poll are numbered in the order in which they are started, and so are their
-- channels; `running` lists the ones that have not returned, `closed` the channels that are closed.
use go_server_sdk.Prelude.{
  ℕ, suc, nat_eq, Bool, true, false, not, ◌&&◌, Option, none, some, List, [], ◌∷◌, ◌==◌, member,
  if◌then◌else◌,
}

pub record DataStoreStatus : Type 0 where
  pub available : Bool
  pub needs_refresh : Bool

abbrev pub same_bool : Bool → Bool → Bool
same_bool true b = b
same_bool false b = not b

abbrev pub same_status : DataStoreStatus → DataStoreStatus → Bool
same_status s t = same_bool s.available t.available && same_bool s.needs_refresh t.needs_refresh

-- DataStoreUpdateSinkImpl, with what it has broadcast, the last status first.
pub record DataStoreUpdateSink : Type 0 where
  pub last_status : DataStoreStatus
  pub broadcasts : List DataStoreStatus

unfoldable pub new_data_store_update_sink : DataStoreUpdateSink
new_data_store_update_sink = record {
  last_status = record { available = true; needs_refresh = false };
  broadcasts = [];
}

unfoldable pub update_status : DataStoreStatus → DataStoreUpdateSink → DataStoreUpdateSink
update_status new_status d =
    if same_status new_status d.last_status
    then d
    else record { last_status = new_status; broadcasts = new_status ∷ d.broadcasts }

pub record Poller : Type 0 where
  pub updates : DataStoreUpdateSink
  pub last_available : Bool
  pub refresh_on_recovery : Bool
  pub poll_closer : Option ℕ
  pub close_called : Bool
  pub started : ℕ
  pub running : List ℕ
  pub closed : List ℕ

unfoldable pub new_data_store_status_poller : Bool → DataStoreUpdateSink → Bool → Poller
new_data_store_status_poller available_now updates refresh_on_recovery = record {
  updates = updates;
  last_available = available_now;
  refresh_on_recovery = refresh_on_recovery;
  poll_closer = none;
  close_called = false;
  started = 0;
  running = [];
  closed = [];
}

unfoldable pub start_status_poller : Poller → Poller
start_status_poller m = record m {
  poll_closer = some m.started;
  started = suc m.started;
  running = m.started ∷ m.running;
}

unfoldable pub update_availability : Bool → Poller → Poller
unfolding start_status_poller
update_availability available m =
    if same_bool available m.last_available
    then m
    else (let status : DataStoreStatus = record {
      available = available;
      needs_refresh = available && m.refresh_on_recovery;
    } in
        let m' : Poller = record m {
          last_available = available;
          updates = update_status status m.updates;
        } in
        if available then m' else start_status_poller m')

-- Close; closeOnce lets the first call through.
unfoldable pub close_poller : Poller → Poller
close_poller m = if m.close_called then m else elim m.poll_closer [
  | none ↦ record m { close_called = true }
  | some c ↦ record m { close_called = true; poll_closer = none; closed = c ∷ m.closed }
]

abbrev pub without : ℕ → List ℕ → List ℕ
without c [] = []
without c (d ∷ ds) = if d == c then without c ds else d ∷ without c ds

-- The end of a goroutine.
abbrev pub returns : ℕ → Poller → Poller
returns c m = record m { running = without c m.running }

-- The goroutine's branch for its closed channel.
unfoldable pub stop_polling : ℕ → Poller → Poller
stop_polling c m = if member c m.running && member c m.closed then returns c m else m
