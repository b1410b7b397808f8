-- ===== src/Migration/Tracker.antt =====
-- migration_op_tracker.go. A method is one step, since it holds the tracker's lock throughout.
use go_server_sdk.Prelude.{
  ℕ, String, string_eq, ℤ, pos, Bool, true, false, not, ◌&&◌, Option, none, some, List, [], ◌∷◌, Eq,
  ◌==◌, Map, has_key, insert, size, is_some, or_else, if◌then◌else◌, nat_eq, arith, ◌≡◌, ◌↔◌, refl,
}
use go_server_sdk.Types.{Error}

-- The enumerations of ldmigration that this repository names. A stage or an origin may be another string
-- too, which stands for none of the named ones.
pub data Stage : Type 0 where
  off dual_write shadow live ramp_down complete : Stage
  other_stage : String → Stage

pub data Origin : Type 0 where
  old new : Origin
  other_origin : String → Origin

pub data Operation : Type 0 where
  read_op write_op : Operation

abbrev pub origin_beq : Origin → Origin → Bool
origin_beq old old = true
origin_beq new new = true
origin_beq (other_origin s) (other_origin t) = s == t
origin_beq _ _ = false

pub origin_beq_iff : (a b : Origin) → (origin_beq a b ≡ true) ↔ (a ≡ b)
origin_beq_iff old old = (λ _. refl, λ _. refl)
origin_beq_iff new new = (λ _. refl, λ _. refl)
origin_beq_iff old new = (λ h. cc, λ h. cc)
origin_beq_iff new old = (λ h. cc, λ h. cc)
origin_beq_iff (other_origin s) (other_origin t) = ground (arith, string_eq.beq_iff s t)
origin_beq_iff (other_origin s) old = (λ h. cc, λ h. cc)
origin_beq_iff (other_origin s) new = (λ h. cc, λ h. cc)
origin_beq_iff old (other_origin t) = (λ h. cc, λ h. cc)
origin_beq_iff new (other_origin t) = (λ h. cc, λ h. cc)

instance abbrev pub origin_eq : Eq Origin
origin_eq = record { beq = origin_beq; beq_iff = origin_beq_iff }

-- What the tracker uses of other packages: flags and contexts, and a sampler that answers whether an
-- event of a given ratio is sampled, and changes its state. `check_ratio` is the ratio of a flag's
-- migration settings, if it has one; `context_error` is the error of an invalid context.
pub record TrackerModel : Type 1 where
  pub Flag : Type 0
  pub Context : Type 0
  pub Detail : Type 0
  pub Sampler : Type 0
  pub check_ratio : Flag → Option ℤ
  pub sampling_ratio : Flag → Option ℤ
  pub flag_version : Flag → ℤ
  pub context_error : Context → Error
  pub sample : ℤ → Sampler → Bool × Sampler

pub record ConsistencyCheck : Type 0 where
  pub consistent : Bool
  pub ratio : ℤ

module _ (m : TrackerModel) where
  open m use {Flag, Context, Detail, Sampler}

  pub record OpTracker : Type 0 where
    pub key : String
    pub flag : Option Flag
    pub default_stage : Stage
    pub op : Option Operation
    pub context : Context
    pub evaluation : Detail
    pub invoked : Map Origin (Unit {0})
    pub consistency_check : Option ConsistencyCheck
    pub errors : Map Origin (Unit {0})
    pub latency_ms : Map Origin ℕ
    pub sampler : Sampler

  -- The event data that Build returns; the creation date is left out.
  pub record MigrationOpEvent : Type 0 where
    pub op : Operation
    pub flag_key : String
    pub default_stage : Stage
    pub context : Context
    pub evaluation : Detail
    pub invoked : Map Origin (Unit {0})
    pub consistency_check : Option ConsistencyCheck
    pub errors : Map Origin (Unit {0})
    pub latency : Map Origin ℕ
    pub sampling_ratio : Option ℤ
    pub version : Option ℤ

  unfoldable pub new_tracker : String → Option Flag → Context → Detail → Stage → Sampler → OpTracker
  new_tracker key flag context detail default_stage sampler = record {
    key = key;
    flag = flag;
    default_stage = default_stage;
    op = none;
    context = context;
    evaluation = detail;
    invoked = [];
    consistency_check = none;
    errors = [];
    latency_ms = [];
    sampler = sampler;
  }

  unfoldable pub operation : Operation → OpTracker → OpTracker
  operation op t = record t { op = some op }

  unfoldable pub track_invoked : Origin → OpTracker → OpTracker
  track_invoked origin t = record t { invoked = insert origin tt t.invoked }

  abbrev pub consistency_ratio : Option Flag → ℤ
  consistency_ratio none = pos 1
  consistency_ratio (some flag) = or_else (m.check_ratio flag) (pos 1)

  -- `is_consistent` is the value of the function, which is called if the check is sampled.
  unfoldable pub track_consistency : Bool → OpTracker → OpTracker
  track_consistency is_consistent t =
      let ratio = consistency_ratio t.flag in
      let (sampled, sampler) = m.sample ratio t.sampler in
      if sampled
      then record t {
        sampler = sampler;
        consistency_check = some (record { consistent = is_consistent; ratio = ratio });
      }
      else record t { sampler = sampler }

  unfoldable pub track_error : Origin → OpTracker → OpTracker
  track_error origin t = record t { errors = insert origin tt t.errors }

  unfoldable pub track_latency : Origin → ℕ → OpTracker → OpTracker
  track_latency origin ms t = record t { latency_ms = insert origin ms t.latency_ms }

  pub data BuildError : Type 0 where
    empty_key no_origin no_operation : BuildError
    invalid_context : String → BuildError
    latency_without_invocation error_without_invocation : Origin → BuildError
    consistency_without_both : BuildError

  -- The body of the loop of checkConsistency.
  abbrev pub check_origin : OpTracker → Origin → Option BuildError
  check_origin t origin =
      if has_key origin t.invoked
      then none
      else if has_key origin t.latency_ms
      then some (latency_without_invocation origin)
      else if has_key origin t.errors
      then some (error_without_invocation origin)
      else none

  abbrev pub check_origins : OpTracker → List Origin → Option BuildError
  check_origins t [] = none
  check_origins t (origin ∷ origins) = elim (check_origin t origin) [
    | some e ↦ some e
    | none ↦ check_origins t origins
  ]

  unfoldable pub check_consistency : OpTracker → Option BuildError
  check_consistency t = elim (check_origins t (old ∷ new ∷ [])) [
    | some e ↦ some e
    | none ↦
        if is_some t.consistency_check && not (size t.invoked == 2)
        then some consistency_without_both
        else none
  ]

  pub data BuildResult : Type 0 where
    built : MigrationOpEvent → BuildResult
    failed : BuildError → BuildResult

  abbrev pub event_of : Operation → OpTracker → MigrationOpEvent
  event_of op t = record {
    op = op;
    flag_key = t.key;
    default_stage = t.default_stage;
    context = t.context;
    evaluation = t.evaluation;
    invoked = t.invoked;
    consistency_check = t.consistency_check;
    errors = t.errors;
    latency = t.latency_ms;
    sampling_ratio = elim t.flag [ none ↦ none | some flag ↦ m.sampling_ratio flag ];
    version = elim t.flag [ none ↦ none | some flag ↦ some (m.flag_version flag) ];
  }

  build_checked : OpTracker → Operation → BuildResult
  unfolding check_consistency
  build_checked t op = elim (m.context_error t.context) [
    | some message ↦ failed (invalid_context message)
    | none ↦ elim (check_consistency t) [ some e ↦ failed e | none ↦ built (event_of op t) ]
  ]

  unfoldable pub build : OpTracker → BuildResult
  unfolding build_checked
  build t =
      if t.key == ""
      then failed empty_key
      else if size t.invoked == 0
      then failed no_origin
      else elim t.op [ none ↦ failed no_operation | some op ↦ build_checked t op ]
