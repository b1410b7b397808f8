-- ===== src/Client.antt =====
-- ldclient.go: the evaluation of a flag with its fallbacks; and the data availability of
-- internal/datasystem/fdv1_datasystem.go and data_availability.go.
-- The evaluation engine (go-server-sdk-evaluation) and the values and reasons of go-sdk-common are
-- parameters. The event processor's input is a list, the last event first. Logging is left out.
pub mod Fallbacks
pub mod Variations
pub mod Methods
pub mod Typed
pub mod Flags
pub mod Described
pub mod Snapshot
use go_server_sdk.Prelude.{
  ℕ, String, string_eq, ℤ, Bool, true, false, not, ◌&&◌, ◌||◌, Option, none, some, is_some, List,
  [], ◌∷◌, ◌++◌, map, if◌then◌else◌, ◌==◌, Eq,
}
use go_server_sdk.Types.{DataKind, features, ItemDescriptor, KeyedItemDescriptor, Error, DataStore}

pub record EvaluationDetail (V R : Type 0) : Type 0 where
  pub value : V
  pub variation_index : Option ℕ
  pub reason : R

pub record EvalResult (V R : Type 0) : Type 0 where
  pub detail : EvaluationDetail V R
  pub is_experiment : Bool

pub data EvalErrorKind : Type 0 where
  client_not_ready : EvalErrorKind
  flag_not_found : EvalErrorKind
  user_not_specified : EvalErrorKind
  wrong_type : EvalErrorKind
  exception : EvalErrorKind

-- A PrerequisiteFlagEvent: the key of the flag that was evaluated, and that of its prerequisite.
abbrev pub PrerequisiteFlagEvent : Type 0
PrerequisiteFlagEvent = String × String

-- What the client uses of the evaluation engine for payloads `A`, flags `F`, contexts `X`, values `V` of
-- types `T`, and reasons `R`.
pub record Engine (A F X V T R : Type 0) : Type 0 where
  pub as_flag : A → Option F
  pub context_error : X → Error
  pub evaluate : F → X → EvalResult V R × List PrerequisiteFlagEvent
  pub is_default_value : EvaluationDetail V R → Bool
  pub error_reason : EvalErrorKind → R
  pub no_reason : R
  pub value_type : V → T
  pub null_type : T
  pub flag_key : F → String
  pub flag_version : F → ℤ
  pub flag_track_events : F → Bool
  pub using_environment_id : F → Bool
  pub flag_debug_events_until_date : F → ℕ

-- eventsScope: whether events are disabled, and what the event factory was made with.
pub record EventsScope : Type 0 where
  pub disabled : Bool
  pub with_reasons : Bool

unfoldable pub new_disabled_events_scope : EventsScope
new_disabled_events_scope = record { disabled = true; with_reasons = false }

unfoldable pub new_events_scope : Bool → EventsScope
new_events_scope with_reasons = record { disabled = false; with_reasons = with_reasons }

-- The calls of the event factory whose results are given to RecordEvaluation, and the prerequisite events
-- that the scope's recorder gets, each with what the factory was made with.
pub data EvaluationEvent (F X V R : Type 0) : Type 0 where
  unknown_flag_evaluation : Bool → String → X → V → R → EvaluationEvent F X V R
  flag_evaluation : Bool → F → X → EvaluationDetail V R → Bool → V → EvaluationEvent F X V R
  prerequisite_evaluation : Bool → PrerequisiteFlagEvent → EvaluationEvent F X V R

pub data DataAvailability : Type 0 where
  defaults : DataAvailability
  cached : DataAvailability
  refreshed : DataAvailability

-- The client over the state `S` of its data store.
pub record Client (F X V R S : Type 0) : Type 0 where
  pub offline : Bool
  pub source_initialized : Bool
  pub data_store : S
  pub events_default : EventsScope
  pub events_with_reasons : EventsScope
  pub recorded : List (EvaluationEvent F X V R)

module _ {A F X V T R S : Type 0} ⦃t : Eq T⦄ (engine : Engine A F X V T R)
    (store : DataStore A S) where
  unfoldable pub data_availability : Client F X V R S → DataAvailability × Client F X V R S
  data_availability client =
      if client.offline
      then (defaults, client)
      else if client.source_initialized
      then (refreshed, client)
      else (let (initialized, s) = store.is_initialized client.data_store in
          (if initialized then cached else defaults, record client { data_store = s }))

  abbrev is_defaults : DataAvailability → Bool
  is_defaults defaults = true
  is_defaults _ = false

  abbrev is_refreshed : DataAvailability → Bool
  is_refreshed refreshed = true
  is_refreshed _ = false

  abbrev is_cached : DataAvailability → Bool
  is_cached cached = true
  is_cached _ = false

  -- Initialized.
  unfoldable pub initialized : Client F X V R S → Bool × Client F X V R S
  unfolding data_availability
  initialized client =
      if client.offline
      then (true, client)
      else (let (availability, c) = data_availability client in (not (is_defaults availability), c))

  -- The test at the start of an evaluation: data is there, if only cached data. Where it is not refreshed,
  -- the availability is asked for again.
  unfoldable pub has_data : Client F X V R S → Bool × Client F X V R S
  unfolding data_availability
  has_data client =
      let (availability, c₁) = data_availability client in
      if is_refreshed availability
      then (true, c₁)
      else (let (again, c₂) = data_availability c₁ in (is_cached again, c₂))

  unfoldable pub new_evaluation_error : V → EvalErrorKind → EvaluationDetail V R
  new_evaluation_error json_value error_kind = record {
    value = json_value;
    variation_index = none;
    reason = engine.error_reason error_kind;
  }

  -- evalErrorResult.
  abbrev pub eval_error_result : V → EvalErrorKind → String → (EvalResult V R × Option F) × Error
  eval_error_result default_val err_kind err = (
    (record { detail = new_evaluation_error default_val err_kind; is_experiment = false }, none),
    some err,
  )

  -- The evaluation of a flag that was found. The prerequisite events go to the scope's recorder.
  unfoldable pub evaluate_flag :
      F
      → X
      → V
      → EventsScope
      → Client F X V R S
      → ((EvalResult V R × Option F) × Error) × Client F X V R S
  evaluate_flag flag context default_val scope client =
      let (result, prerequisites) = engine.evaluate flag context in
      let detail : EvaluationDetail V R =
        if engine.is_default_value result.detail
        then record (result.detail) { value = default_val }
        else result.detail in
      let sent = map (λ e. prerequisite_evaluation scope.with_reasons e) prerequisites in
      (
        ((record result { detail = detail }, some flag), none),
        if scope.disabled
            then client
            else record client { recorded = rev_append sent client.recorded },
      )
    where
      rev_append :
          List (EvaluationEvent F X V R)
          → List (EvaluationEvent F X V R)
          → List (EvaluationEvent F X V R)
      rev_append [] ys = ys
      rev_append (x ∷ xs) ys = rev_append xs (x ∷ ys)

  unfoldable pub evaluate_internal :
      String
      → X
      → V
      → EventsScope
      → Client F X V R S
      → ((EvalResult V R × Option F) × Error) × Client F X V R S
  evaluate_internal key context default_val scope client =
      let (ready, c₁) = has_data client in
      if not ready
      then (eval_error_result default_val client_not_ready "not initialized", c₁)
      else (let ((item_desc, store_err), s) = store.get features key c₁.data_store in
          let c₂ : Client F X V R S = record c₁ { data_store = s } in
          elim store_err [
            | some e ↦ (eval_error_result default_val exception e, c₂)
            | none ↦ elim item_desc.item [
              | none ↦ (eval_error_result default_val flag_not_found "unknown feature key", c₂)
              | some a ↦ elim (engine.as_flag a) [
                | none ↦ (eval_error_result default_val exception "unexpected data type", c₂)
                | some flag ↦ evaluate_flag flag context default_val scope c₂
              ]
            ]
          ])

  -- The detail that variationAndFlag returns for a result.
  unfoldable pub checked_detail : V → Bool → EvalResult V R → Error → EvaluationDetail V R
  checked_detail default_val check_type result (some e) = record (result.detail) {
    value = default_val;
    variation_index = none;
  }
  checked_detail default_val check_type result none =
      if check_type
        && (not (engine.value_type default_val == engine.null_type)
            && not (engine.value_type result.detail.value == engine.value_type default_val))
      then new_evaluation_error default_val wrong_type
      else result.detail

  unfoldable pub evaluation_event :
      EventsScope
      → String
      → X
      → V
      → Option F
      → EvaluationDetail V R
      → Bool
      → EvaluationEvent F X V R
  evaluation_event scope key context default_val none detail is_experiment =
      unknown_flag_evaluation scope.with_reasons key context default_val detail.reason
  evaluation_event scope key context default_val (some flag) detail is_experiment =
      flag_evaluation scope.with_reasons flag context detail is_experiment default_val

  unfoldable pub variation_and_flag :
      String
      → X
      → V
      → Bool
      → EventsScope
      → Client F X V R S
      → ((EvaluationDetail V R × Option F) × Error) × Client F X V R S
  variation_and_flag key context default_val check_type scope client =
      elim (engine.context_error context) [
        | some err ↦
            (((new_evaluation_error default_val user_not_specified, none), some err), client)
        | none ↦
            if client.offline
            then (((new_evaluation_error default_val client_not_ready, none), none), client)
            else (let (((result, flag), err), c) =
                  evaluate_internal key context default_val scope client in
                let detail = checked_detail default_val check_type result err in
                let event =
                  evaluation_event scope key context default_val flag detail result.is_experiment in
                (
                  ((detail, flag), err),
                  if scope.disabled then c else record c { recorded = event ∷ c.recorded },
                ))
      ]
