-- ===== src/Migration/Migrator.antt =====
-- migrator_base.go and migrator.go.
use go_server_sdk.Prelude.{
  ℕ, String, Bool, true, false, not, ◌&&◌, Option, none, some, if◌then◌else◌,
}
use go_server_sdk.Types.{Error}
use go_server_sdk.Migration.Tracker.{
  Stage, off, dual_write, shadow, live, ramp_down, complete, other_stage, Origin, old, new, read_op,
  write_op, TrackerModel, OpTracker, MigrationOpEvent, operation, track_invoked, track_consistency,
  track_error, track_latency, build, built, failed,
}

pub data ExecutionOrder : Type 0 where
  serial random concurrent : ExecutionOrder

-- The origin of a result that no executor made is the empty string, `none`.
pub record MigrationResult (V : Type 0) : Type 0 where
  pub success : Bool
  pub origin : Option Origin
  pub result : Option V
  pub error : Error

abbrev pub new_successful_migration_result : {V : Type 0} → Origin → V → MigrationResult V
new_successful_migration_result origin result = record {
  success = true;
  origin = some origin;
  result = some result;
  error = none;
}

abbrev pub new_error_migration_result : {V : Type 0} → Origin → String → MigrationResult V
new_error_migration_result origin err = record {
  success = false;
  origin = some origin;
  result = none;
  error = some err;
}

pub record MigrationWriteResult (V : Type 0) : Type 0 where
  pub authoritative : MigrationResult V
  pub non_authoritative : Option (MigrationResult V)

-- What an application's migration function returns: a value, or an error.
pub data Outcome (V : Type 0) : Type 0 where
  value : V → Outcome V
  error : String → Outcome V

-- A migration function acts on the world `W`, which the model does not look into.
abbrev pub MigrationImplFn : Type 0 → Type 0 → Type 0 → Type 0
MigrationImplFn P V W = P → W → Outcome V × W

pub record MigrationConfig (P V W : Type 0) : Type 0 where
  pub old_impl : MigrationImplFn P V W
  pub new_impl : MigrationImplFn P V W
  pub compare : Option (Option V → Option V → Bool)

-- The client of a migrator and its clock. `elapsed` is the time between two states of the world in
-- milliseconds; `coin` is the sampler's answer for `Random`; `authoritative_first` says which of two
-- concurrent calls comes first.
pub record Client (m : TrackerModel) (W : Type 0) : Type 0 where
  pub migration_variation :
      String → TrackerModel.Context m → Stage → W → (Stage × OpTracker m × Error) × W
  pub track_migration_op : MigrationOpEvent m → W → Error × W
  pub elapsed : W → W → ℕ
  pub coin : W → Bool × W
  pub authoritative_first : W → Bool

pub record MigratorImpl (P V W : Type 0) : Type 0 where
  pub read_execution_order : ExecutionOrder
  pub read_config : MigrationConfig P V W
  pub write_config : MigrationConfig P V W
  pub measure_latency : Bool
  pub measure_errors : Bool

-- The tracker, which the executors share, and the world.
pub record Run (m : TrackerModel) (W : Type 0) : Type 0 where
  pub tracker : OpTracker m
  pub world : W

pub record MigrationExecutor (P V W : Type 0) : Type 0 where
  pub origin : Origin
  pub impl : MigrationImplFn P V W
  pub measure_latency : Bool
  pub measure_errors : Bool
  pub payload : P

abbrev pub old_executor :
    {P V W : Type 0} → MigratorImpl P V W → MigrationConfig P V W → P → MigrationExecutor P V W
old_executor g config payload = record {
  origin = old;
  impl = config.old_impl;
  measure_latency = g.measure_latency;
  measure_errors = g.measure_errors;
  payload = payload;
}

abbrev pub new_executor :
    {P V W : Type 0} → MigratorImpl P V W → MigrationConfig P V W → P → MigrationExecutor P V W
new_executor g config payload = record {
  origin = new;
  impl = config.new_impl;
  measure_latency = g.measure_latency;
  measure_errors = g.measure_errors;
  payload = payload;
}

abbrev pub is_error : {V : Type 0} → Outcome V → Bool
is_error (value _) = false
is_error (error _) = true

abbrev pub result_of : {V : Type 0} → Origin → Outcome V → MigrationResult V
result_of origin (value v) = new_successful_migration_result origin v
result_of origin (error e) = new_error_migration_result origin e

abbrev pub is_concurrent : ExecutionOrder → Bool
is_concurrent concurrent = true
is_concurrent _ = false

abbrev pub is_random : ExecutionOrder → Bool
is_random random = true
is_random _ = false

abbrev pub on_tracker :
    {m : TrackerModel} {W : Type 0} → (OpTracker m → OpTracker m) → Run m W → Run m W
on_tracker f r = record r { tracker = f r.tracker }

module _ (m : TrackerModel) {V : Type 0} where
  abbrev pub compared :
      Option (Option V → Option V → Bool)
      → MigrationResult V
      → MigrationResult V
      → OpTracker m
      → OpTracker m
  compared none a n t = t
  compared (some compare) a n t =
      if a.success && n.success then track_consistency m (compare a.result n.result) t else t

  abbrev pub invoked_both : {W : Type 0} → MigrationResult V × Run m W → MigrationResult V × Run m W
  invoked_both (a, r) = (a, on_tracker (λ t. track_invoked m new (track_invoked m old t)) r)

-- The error text of an unknown stage.
abbrev pub invalid_stage : {V : Type 0} → MigrationResult V
invalid_stage = record {
  success = false;
  origin = none;
  result = none;
  error = some "invalid stage detected";
}

module _ (m : TrackerModel) {W : Type 0} (client : Client m W) where
  -- Which executor goes first; the sampler is asked for `Random` only.
  unfoldable pub first_of_both : ExecutionOrder → W → Bool × W
  first_of_both order w =
      if is_concurrent order
      then (client.authoritative_first w, w)
      else if is_random order
      then (let (sampled, w') = client.coin w in (not sampled, w'))
      else (true, w)

  -- trackMigrationOp; its errors are logged.
  unfoldable pub track_migration_op : Run m W → W
  track_migration_op r = elim (build m r.tracker) [
    | failed _ ↦ r.world
    | built event ↦ (client.track_migration_op event r.world).1
  ]

module _ (m : TrackerModel) {P V W : Type 0} (client : Client m W) where
  -- The measurements of exec, once the migration function has returned.
  abbrev pub measure : MigrationExecutor P V W → Bool → ℕ → OpTracker m → OpTracker m
  measure e is_err ms t =
      let t' = if e.measure_latency then track_latency m e.origin ms t else t in
      if e.measure_errors && is_err then track_error m e.origin t' else t'

  unfoldable pub exec : MigrationExecutor P V W → Run m W → MigrationResult V × Run m W
  exec e r =
      let (outcome, w) = e.impl e.payload r.world in
      (
        result_of e.origin outcome,
        record {
          tracker = measure e (is_error outcome) (client.elapsed r.world w) r.tracker;
          world = w;
        },
      )

  unfoldable pub exec_both :
      MigrationExecutor P V W
      → MigrationExecutor P V W
      → Bool
      → Run m W
      → (MigrationResult V × MigrationResult V) × Run m W
  exec_both authoritative non_authoritative authoritative_first r =
      if authoritative_first
      then (let (a, r1) = exec authoritative r in
          let (n, r2) = exec non_authoritative r1 in ((a, n), r2))
      else (let (n, r1) = exec non_authoritative r in
          let (a, r2) = exec authoritative r1 in ((a, n), r2))

  unfoldable pub read_from_both :
      MigrationExecutor P V W
      → MigrationExecutor P V W
      → Option (Option V → Option V → Bool)
      → ExecutionOrder
      → Run m W
      → MigrationResult V × Run m W
  unfolding exec_both first_of_both
  read_from_both authoritative non_authoritative comparison order r =
      let (first, w) = first_of_both m client order r.world in
      let ((a, n), r') = exec_both authoritative non_authoritative first (record r { world = w }) in
      (a, on_tracker (compared m comparison a n) r')

  unfoldable pub write_to_both :
      MigrationExecutor P V W → MigrationExecutor P V W → Run m W → MigrationWriteResult V × Run m W
  write_to_both authoritative non_authoritative r =
      let (a, r1) = exec authoritative r in
      let r1' = on_tracker (track_invoked m authoritative.origin) r1 in
      if a.success
      then (let (n, r2) = exec non_authoritative r1' in
          (
            record { authoritative = a; non_authoritative = some n },
            on_tracker (track_invoked m non_authoritative.origin) r2,
          ))
      else (record { authoritative = a; non_authoritative = none }, r1')

  abbrev pub read_single : MigrationExecutor P V W → Run m W → MigrationResult V × Run m W
  read_single e r = let (a, r') = exec e r in (a, on_tracker (track_invoked m e.origin) r')

  -- The switch of Read.
  unfoldable pub read_stage : MigratorImpl P V W → P → Stage → Run m W → MigrationResult V × Run m W
  unfolding read_from_both
  read_stage g payload off r = read_single (old_executor g g.read_config payload) r
  read_stage g payload dual_write r = read_single (old_executor g g.read_config payload) r
  read_stage g payload shadow r = invoked_both m (
      read_from_both (old_executor g g.read_config payload) (new_executor g g.read_config payload)
        g.read_config.compare g.read_execution_order r)
  read_stage g payload live r = invoked_both m (
      read_from_both (new_executor g g.read_config payload) (old_executor g g.read_config payload)
        g.read_config.compare g.read_execution_order r)
  read_stage g payload ramp_down r = read_single (new_executor g g.read_config payload) r
  read_stage g payload complete r = read_single (new_executor g g.read_config payload) r
  read_stage g payload (other_stage _) r = (invalid_stage, r)

  abbrev pub write_single : MigrationExecutor P V W → Run m W → MigrationWriteResult V × Run m W
  write_single e r =
      let (a, r') = read_single e r in (record { authoritative = a; non_authoritative = none }, r')

  -- The switch of Write.
  unfoldable pub write_stage :
      MigratorImpl P V W → P → Stage → Run m W → MigrationWriteResult V × Run m W
  unfolding write_to_both
  write_stage g payload off r = write_single (old_executor g g.write_config payload) r
  write_stage g payload dual_write r =
      write_to_both (old_executor g g.write_config payload) (new_executor g g.write_config payload)
        r
  write_stage g payload shadow r =
      write_to_both (old_executor g g.write_config payload) (new_executor g g.write_config payload)
        r
  write_stage g payload live r =
      write_to_both (new_executor g g.write_config payload) (old_executor g g.write_config payload)
        r
  write_stage g payload ramp_down r =
      write_to_both (new_executor g g.write_config payload) (old_executor g g.write_config payload)
        r
  write_stage g payload complete r = write_single (new_executor g g.write_config payload) r
  write_stage g payload (other_stage _) r =
      (record { authoritative = invalid_stage; non_authoritative = none }, r)

  unfoldable pub read :
      MigratorImpl P V W → String → TrackerModel.Context m → Stage → P → W → MigrationResult V × W
  read g key context default_stage payload w =
      let ((stage, tracker, err), w') = client.migration_variation key context default_stage w in
      let (result, r) =
        read_stage g payload stage (record { tracker = operation m read_op tracker; world = w' }) in
      (result, track_migration_op m client r)

  unfoldable pub write :
      MigratorImpl P V W
      → String
      → TrackerModel.Context m
      → Stage
      → P
      → W
      → MigrationWriteResult V × W
  write g key context default_stage payload w =
      let ((stage, tracker, err), w') = client.migration_variation key context default_stage w in
      let (result, r) =
        write_stage g payload stage
          (record { tracker = operation m write_op tracker; world = w' }) in
      (result, track_migration_op m client r)
