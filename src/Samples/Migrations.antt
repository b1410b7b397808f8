-- ===== src/Samples/Migrations.antt =====
-- A migration whose world counts the calls of its functions.
use go_server_sdk.Prelude.{ℕ, suc, string_eq, true, ◌≡◌, refl, ◌↔◌, none, some, pos}
use go_server_sdk.Migration.Tracker.{
  off, live, read_op, TrackerModel, OpTracker, new_tracker, operation, MigrationOpEvent, build,
  built,
}
use go_server_sdk.Migration.Migrator.{
  MigratorImpl, Client, Run, serial, value, error, read_stage, write_stage,
}
use go_server_sdk.Migration.Results.{outcome_of, stage_written, write_stage_lem}
use go_server_sdk.Migration.Building.{Complete, build_iff}
use go_server_sdk.Migration.Measured.{Fresh}
use go_server_sdk.Migration.Events.{read_stage-builds, write_stage-builds}

abbrev model : TrackerModel
model = record {
  Flag = Unit;
  Context = Unit;
  Detail = Unit;
  Sampler = Unit;
  check_ratio = λ _. none;
  sampling_ratio = λ _. none;
  flag_version = λ _. pos 1;
  context_error = λ _. none;
  sample = λ _ s. (true, s);
}

abbrev client : Client model ℕ
client = record {
  migration_variation = λ k c s w. ((s, new_tracker model k none tt tt s tt, none), w);
  track_migration_op = λ e w. (none, w);
  elapsed = λ v w. 1;
  coin = λ w. (true, w);
  authoritative_first = λ w. true;
}

-- Reads and old writes succeed; the write to the new origin fails.
abbrev migrator : MigratorImpl ℕ ℕ ℕ
migrator = record {
  read_execution_order = serial;
  read_config = record {
    old_impl = λ p w. (value p, suc w);
    new_impl = λ p w. (value p, suc w);
    compare = some (λ x y. true);
  };
  write_config = record {
    old_impl = λ p w. (value p, suc w);
    new_impl = λ p w. (error "down", suc w);
    compare = none;
  };
  measure_latency = true;
  measure_errors = true;
}

abbrev start : Run model ℕ
start = record {
  tracker = operation model read_op (new_tracker model "flag" (some tt) tt tt off tt);
  world = 0;
}

start-Fresh : Fresh model start.tracker
unfolding operation new_tracker
start-Fresh = record {
  named = λ e. cc ((string_eq.beq_iff "flag" "").1 e);
  has_op = refl;
  valid_context = refl;
  none_invoked = refl;
  no_latency = refl;
  no_errors = refl;
  no_check = refl;
}

read_stage-builds_example :
    (event : MigrationOpEvent model) × (build model
        (read_stage model client migrator 7 live start).1.tracker
      ≡ built event)
read_stage-builds_example =
    read_stage-builds model client migrator 7 live start (λ e. cc) start-Fresh

write_stage-builds_example :
    (event : MigrationOpEvent model) × (build model
        (write_stage model client migrator 7 live start).1.tracker
      ≡ built event)
write_stage-builds_example =
    write_stage-builds model client migrator 7 live start (λ e. cc) start-Fresh

abbrev finished : OpTracker model
finished = (read_stage model client migrator 7 live start).1.tracker

build_iff_example :
    ((event : MigrationOpEvent model) × (build model finished ≡ built event))
    ↔ Complete model finished
build_iff_example = build_iff model finished

write_stage_lem_example :
    outcome_of (write_stage model client migrator 7 live start)
    ≡ stage_written migrator.write_config live 7 start.world
write_stage_lem_example = write_stage_lem model client migrator 7 live start
