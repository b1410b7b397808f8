-- ===== src/Migration/Results.antt =====
-- Whose answer a migration returns, and which functions it calls.
use go_server_sdk.Prelude.{
  String, string_eq, Bool, true, false, ◌&&◌, ◌==◌, if◌then◌else◌, ◌⊎◌, inl, inr, Option, none,
  some, ◌≡◌, refl, arith,
}
use go_server_sdk.Migration.Tracker.{
  Stage, off, dual_write, shadow, live, ramp_down, complete, other_stage, Origin, old, new,
  origin_eq, TrackerModel,
}
use go_server_sdk.Migration.Migrator.{
  MigratorImpl, MigrationExecutor, Client, Run, ExecutionOrder, exec, read_from_both, write_to_both,
  write_single, first_of_both, read_stage, MigrationConfig, MigrationResult, MigrationWriteResult,
  write_stage, old_executor, new_executor, result_of, value, error, Outcome,
}

-- The origin whose result is authoritative for reads and for writes.
abbrev pub authority : Stage → Option Origin
authority off = some old
authority dual_write = some old
authority shadow = some old
authority live = some new
authority ramp_down = some new
authority complete = some new
authority (other_stage _) = none

-- The stages that write to both origins.
abbrev pub writes_both : Stage → Bool
writes_both dual_write = true
writes_both shadow = true
writes_both live = true
writes_both ramp_down = true
writes_both _ = false

result_of-origin :
    {V : Type 0} (origin : Origin) (o : Outcome V) → (result_of origin o).origin ≡ some origin
result_of-origin origin (value _) = refl
result_of-origin origin (error _) = refl

-- A function of the application, with the origin that it stands for.
abbrev Call : Type 0 → Type 0 → Type 0 → Type 0
Call P V W = Origin × (P → W → Outcome V × W)

-- What is returned for a call's outcome, and for a stage that is not known.
abbrev pub answer : {V : Type 0} → Origin → Outcome V → MigrationResult V
answer origin (value v) = record {
  success = true;
  origin = some origin;
  result = some v;
  error = none;
}
answer origin (error e) = record {
  success = false;
  origin = some origin;
  result = none;
  error = some e;
}

abbrev pub unknown_stage : {V : Type 0} → MigrationResult V
unknown_stage = record {
  success = false;
  origin = none;
  result = none;
  error = some "invalid stage detected";
}

abbrev succeeded : {V : Type 0} → Outcome V → Bool
succeeded (value _) = true
succeeded (error _) = false

Outcome-cases :
    {V : Type 0} (o : Outcome V) → ((v : V) × (o ≡ value v)) ⊎ ((e : String) × (o ≡ error e))
Outcome-cases (value v) = inl (v, refl)
Outcome-cases (error e) = inr (e, refl)

result_of-answer :
    {V : Type 0} (origin : Origin) (o : Outcome V) → result_of origin o ≡ answer origin o
result_of-answer origin (value v) = refl
result_of-answer origin (error e) = refl

-- The result and the world that a write leaves.
abbrev pub outcome_of :
    {m : TrackerModel} {V W : Type 0}
    → MigrationWriteResult V × Run m W
    → MigrationWriteResult V × W
outcome_of r = (r.0, r.1.world)

module _ {P V W : Type 0} where
  -- What a write leaves that makes the call `a` and, if that succeeds and `both` is set, the call `n`.
  abbrev written : Call P V W → Call P V W → Bool → P → P → W → MigrationWriteResult V × W
  written a n both payload payload' w =
      let (first, w₁) = a.1 payload w in
      if both && succeeded first
      then (let (second, w₂) = n.1 payload' w₁ in
          (
            record {
              authoritative = answer a.0 first;
              non_authoritative = some (answer n.0 second);
            },
            w₂,
          ))
      else (record { authoritative = answer a.0 first; non_authoritative = none }, w₁)

  -- What a write is to leave at a stage.
  abbrev pub stage_written : MigrationConfig P V W → Stage → P → W → MigrationWriteResult V × W
  stage_written config stage payload w = elim (authority stage) [
    | none ↦ (record { authoritative = unknown_stage; non_authoritative = none }, w)
    | some leading ↦
        let old_call : Call P V W = (old, config.old_impl) in
        let new_call : Call P V W = (new, config.new_impl) in
        if leading == new
        then written new_call old_call (writes_both stage) payload payload w
        else written old_call new_call (writes_both stage) payload payload w
  ]

module _ (m : TrackerModel) {P V W : Type 0} (client : Client m W) where
  exec-origin :
      (e : MigrationExecutor P V W) (r : Run m W) → (exec m client e r).0.origin ≡ some e.origin
  unfolding exec
  exec-origin e r = result_of-origin e.origin (e.impl e.payload r.world).0

  read_from_both-origin :
      (a n : MigrationExecutor P V W) (comparison : Option (Option V → Option V → Bool))
      (order : ExecutionOrder) (r : Run m W)
      → (read_from_both m client a n comparison order r).0.origin ≡ some a.origin
  unfolding read_from_both
  read_from_both-origin a n comparison order r =
      let (first, w) = first_of_both m client order r.world in
      ground (
        arith,
        exec-origin a (record r { world = w }),
        exec-origin a (exec m client n (record r { world = w })).1,
      )

  -- A read returns the answer of the stage's authoritative origin, whichever call is made first.
  read_stage-origin :
      (g : MigratorImpl P V W) (payload : P) (stage : Stage) (r : Run m W)
      → (read_stage m client g payload stage r).0.origin ≡ authority stage
  unfolding read_stage
  read_stage-origin g payload off r = exec-origin (old_executor g g.read_config payload) r
  read_stage-origin g payload dual_write r = exec-origin (old_executor g g.read_config payload) r
  read_stage-origin g payload shadow r =
      read_from_both-origin (old_executor g g.read_config payload)
        (new_executor g g.read_config payload) g.read_config.compare g.read_execution_order r
  read_stage-origin g payload live r =
      read_from_both-origin (new_executor g g.read_config payload)
        (old_executor g g.read_config payload) g.read_config.compare g.read_execution_order r
  read_stage-origin g payload ramp_down r = exec-origin (new_executor g g.read_config payload) r
  read_stage-origin g payload complete r = exec-origin (new_executor g g.read_config payload) r
  read_stage-origin g payload (other_stage _) r = refl

  write_to_both_lem :
      (a n : MigrationExecutor P V W) (r : Run m W)
      → outcome_of (write_to_both m client a n r)
        ≡ written (a.origin, a.impl) (n.origin, n.impl) true a.payload n.payload r.world
  unfolding write_to_both exec
  write_to_both_lem a n r =
      let first = a.impl a.payload r.world in
      let second = n.impl n.payload first.1 in
      elim (Outcome-cases first.0) [
        | inl (v, e) ↦ ground (arith, e, result_of-answer n.origin second.0)
        | inr (f, e) ↦ ground (arith, e)
      ]

  write_single_lem :
      (a n : MigrationExecutor P V W) (r : Run m W)
      → outcome_of (write_single m client a r)
        ≡ written (a.origin, a.impl) (n.origin, n.impl) false a.payload n.payload r.world
  unfolding exec
  write_single_lem a n r = ground (arith, result_of-answer a.origin (a.impl a.payload r.world).0)

  -- What a write returns and does to the world, at every stage: it calls the function of the stage's
  -- authoritative origin and returns its answer; in the stages that write to both it then calls the other
  -- function, exactly when the first has succeeded, and returns that answer too.
  pub write_stage_lem :
      (g : MigratorImpl P V W) (payload : P) (stage : Stage) (r : Run m W)
      → outcome_of (write_stage m client g payload stage r)
        ≡ stage_written g.write_config stage payload r.world
  unfolding write_stage
  write_stage_lem g payload off r =
      write_single_lem (old_executor g g.write_config payload)
        (new_executor g g.write_config payload) r
  write_stage_lem g payload dual_write r =
      write_to_both_lem (old_executor g g.write_config payload)
        (new_executor g g.write_config payload) r
  write_stage_lem g payload shadow r =
      write_to_both_lem (old_executor g g.write_config payload)
        (new_executor g g.write_config payload) r
  write_stage_lem g payload live r =
      write_to_both_lem (new_executor g g.write_config payload)
        (old_executor g g.write_config payload) r
  write_stage_lem g payload ramp_down r =
      write_to_both_lem (new_executor g g.write_config payload)
        (old_executor g g.write_config payload) r
  write_stage_lem g payload complete r =
      write_single_lem (new_executor g g.write_config payload)
        (old_executor g g.write_config payload) r
  write_stage_lem g payload (other_stage _) r = refl
