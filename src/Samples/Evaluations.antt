-- ===== src/Samples/Evaluations.antt =====
-- A client with an in-memory store, hooks, a flag tracker and snapshots.
use go_server_sdk.Prelude.{
  ℕ, nat_eq, String, string_eq, pos, true, false, not, ◌&&◌, List, [], ◌∷◌, none, some, lookup,
  member, if◌then◌else◌, ◌==◌, ◌≡◌, ◌≢◌, refl, arith,
}
use go_server_sdk.Types.{features, ItemDescriptor, Error}
use go_server_sdk.InMemoryDataStore.{InMemoryDataStore, init, get_all, new_in_memory_data_store}
use go_server_sdk.Hooks.{
  Hook, before_evaluation, execute_stage, stage_loop, new_iterator, prepare_evaluation_series, nth,
  put, after_evaluation, run_evaluation,
}
use go_server_sdk.Hooks.Series.{series, run_evaluation_lem}
use go_server_sdk.Broadcasters.Delivery.{is_open, IsValid}
use go_server_sdk.FlagTracker.{
  FlagTracker, run_value_change_listener, remove_flag_value_change_listener,
}
use go_server_sdk.FlagTracker.Changes.{values_of, changes, run_value_change_listener_lem}
use go_server_sdk.FlagTracker.Removal.{remove_flag_value_change_listener_lem}
use go_server_sdk.FlagState.{FlagState, AllFlags, client_side_only, reasons, get_flag}
use go_server_sdk.Client.{Engine, EvaluationDetail, Client, new_events_scope, has_data, initialized}
use go_server_sdk.Client.Variations.{EvaluationSeriesContext, unconverted, typed_variation}
use go_server_sdk.Client.Typed.{typed_variation_lem}
use go_server_sdk.Client.Flags.{all_flags_state}
use go_server_sdk.Client.Described.{given, options_given}
use go_server_sdk.Client.Snapshot.{last_shown, all_flags_state_lem}
use go_server_sdk.Samples.{Item, full_data, sample_store}

-- A hook that logs its number in the world, and fails in the after stage.
abbrev logging : ℕ → Hook (List ℕ) Unit ℕ ℕ
logging n = record {
  before_stage = λ x d w. ((n, none), n ∷ w);
  after_stage = λ x d r w. ((0, some "failed"), d ∷ w);
}

abbrev answer : List ℕ → (ℕ × Unit {0}) × List ℕ
answer w = ((7, tt), 9 ∷ w)

run_evaluation_lem_example :
    run_evaluation 0 0 (logging 1 ∷ logging 2 ∷ []) tt answer []
    ≡ some (series 0 0 (logging 1 ∷ logging 2 ∷ []) tt answer [])
run_evaluation_lem_example = run_evaluation_lem 0 0 (logging 1 ∷ logging 2 ∷ []) tt answer []

order_of_stages :
    run_evaluation 0 0 (logging 1 ∷ logging 2 ∷ []) tt answer []
    ≡ some ((7, tt), 1 ∷ 2 ∷ 9 ∷ 2 ∷ 1 ∷ [])
unfolding run_evaluation before_evaluation execute_stage stage_loop new_iterator
    prepare_evaluation_series nth put after_evaluation
order_of_stages = refl

abbrev messages : List (String × ℕ)
messages = ("a", 1) ∷ ("b", 5) ∷ ("a", 1) ∷ ("a", 3) ∷ []

run_value_change_listener_lem_example :
    run_value_change_listener "a" 0 messages ≡ changes "a" 0 (values_of "a" messages)
run_value_change_listener_lem_example = run_value_change_listener_lem "a" 0 messages

abbrev tracker : FlagTracker
tracker = record {
  broadcaster = record {
    subscribers = 0 ∷ [];
    channels = (0, record { sent = []; closed = false }) ∷ [];
    made = 1;
  };
  value_change_subscriptions = (0, 0) ∷ [];
  value_channels = 1;
}

tracker-IsValid : IsValid tracker.broadcaster
unfolding lookup
tracker-IsValid = record {
  distinct = (refl, tt);
  all_open = λ j k. ground (arith, nat_eq.beq_iff 0 j);
  all_made = λ j k. ground (arith, nat_eq.beq_iff 0 j);
}

remove_flag_value_change_listener_lem_example :
    (f' : FlagTracker) × (remove_flag_value_change_listener 0 tracker ≡ some f')
    × ((j : ℕ)
        → member j f'.broadcaster.subscribers
          ≡ (member j tracker.broadcaster.subscribers && not (0 == j)))
    × ((j : ℕ)
        → is_open j f'.broadcaster.channels
          ≡ (if 0 == j then false else is_open j tracker.broadcaster.channels))
    × (remove_flag_value_change_listener 0 f' ≡ some f')
unfolding lookup
remove_flag_value_change_listener_lem_example =
    remove_flag_value_change_listener_lem 0 0 tracker tracker-IsValid refl refl

-- Values are numbers: 7 is of the type 2, the others of the type 1, and the type 0 is null's. Every flag is
-- worth 7, with the variation 0.
abbrev engine : Engine Item Item Unit ℕ ℕ ℕ
engine = record {
  as_flag = some;
  context_error = λ x. none;
  evaluate = λ f x. (
    record {
      detail = record { value = 7; variation_index = some 0; reason = 1 };
      is_experiment = false;
    },
    [],
  );
  is_default_value = λ d. elim d.variation_index [ none ↦ true | some _ ↦ false ];
  error_reason = λ k. 2;
  no_reason = 0;
  value_type = λ v. if v == 7 then 2 else 1;
  null_type = 0;
  flag_key = λ f. "";
  flag_version = λ f. pos 1;
  flag_track_events = λ f. false;
  using_environment_id = λ f. false;
  flag_debug_events_until_date = λ f. 0;
}

abbrev started : Client Item Unit ℕ ℕ (InMemoryDataStore Item)
started = record {
  offline = false;
  source_initialized = true;
  data_store = (init full_data new_in_memory_data_store).1;
  events_default = new_events_scope false;
  events_with_reasons = new_events_scope true;
  recorded = [];
}

-- Two hooks over the client, the second of which always fails.
abbrev client_hook :
    Error
    → Hook
        (Unit {0} × Client Item Unit ℕ ℕ (InMemoryDataStore Item))
        (EvaluationSeriesContext Unit ℕ)
        ℕ
        (EvaluationDetail ℕ ℕ)
client_hook err = record {
  before_stage = λ x d w. ((1, err), w);
  after_stage = λ x d r w. ((d, err), w);
}

typed_variation_lem_example :
    (r : ((ℕ × EvaluationDetail ℕ ℕ) × Error)
      × (Unit {0} × Client Item Unit ℕ ℕ (InMemoryDataStore Item)))
    × (typed_variation engine sample_store 0 0 unconverted true
          (new_events_scope true)
          "LDClient.IntVariation"
          (client_hook none ∷ client_hook (some "failed") ∷ [])
          "a"
          tt
          3
          (tt, started)
        ≡ some r)
    × (r.0.0.0 ≡ r.0.0.1.value)
    × ((e : String) → r.0.1 ≡ some e → r.0.0.0 ≡ 3)
    × (true ≡ true
        → engine.value_type 3 ≢ engine.null_type
        → engine.value_type (r.0.0.1.value) ≡ engine.value_type 3)
typed_variation_lem_example =
    typed_variation_lem engine sample_store 0 0 unconverted true (new_events_scope true)
      "LDClient.IntVariation" (client_hook none ∷ client_hook (some "failed") ∷ []) "a" tt 3
      (tt, started) (λ p. refl)

abbrev stored : List (String × ItemDescriptor Item)
stored = (sample_store.get_all features (has_data engine sample_store started).1.data_store).0.0

all_flags_state_lem_example :
    ((all_flags_state engine sample_store 5 tt (reasons ∷ []) started).0.valid ≡ true)
    × (get_flag "a" (all_flags_state engine sample_store 5 tt (reasons ∷ []) started).0
        ≡ last_shown engine sample_store 5 tt
            (given client_side_only (reasons ∷ []))
            (options_given (reasons ∷ []))
            "a"
            stored)
unfolding has_data get_all
all_flags_state_lem_example =
    all_flags_state_lem engine sample_store 5 tt (reasons ∷ []) started "a" refl refl refl

abbrev seven : FlagState ℕ ℕ
seven = record {
  value = 7;
  variation = some 0;
  version = pos 1;
  reason = 1;
  track_events = false;
  track_reason = false;
  debug_events_until_date = 0;
  omit_details = false;
  prerequisites = [];
}

abbrev snapshot : AllFlags ℕ ℕ
snapshot = record { flags = ("a", seven) ∷ ("b", record seven { value = 8 }) ∷ []; valid = true }

-- The data source has never been connected, and the store has data.
initialized_without_connection :
    (initialized engine sample_store (record started { source_initialized = false })).0 ≡ true
unfolding initialized init
initialized_without_connection = refl
