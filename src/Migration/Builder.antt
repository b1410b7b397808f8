-- ===== src/Migration/Builder.antt =====
-- migrator_builder.go. Whether a client is given is a flag: the client itself is a parameter of the migrator.
use go_server_sdk.Prelude.{
  String, Bool, true, Option, none, some, List, [], ◌∷◌, ◌⊎◌, inl, inr, or_else, ◌≡◌, refl,
  if◌then◌else◌,
}
use go_server_sdk.Migration.Migrator.{
  ExecutionOrder, concurrent, MigrationImplFn, MigrationConfig, MigratorImpl,
}

pub record MigratorBuilder (P V W : Type 0) : Type 0 where
  pub has_client : Bool
  pub builder_read_order : ExecutionOrder
  pub builder_latency : Bool
  pub builder_errors : Bool
  pub builder_read : Option (MigrationConfig P V W)
  pub builder_write : Option (MigrationConfig P V W)

module _ {P V W : Type 0} where
  unfoldable pub migration : Bool → MigratorBuilder P V W
  migration has_client = record {
    has_client = has_client;
    builder_read_order = concurrent;
    builder_latency = true;
    builder_errors = true;
    builder_read = none;
    builder_write = none;
  }

  unfoldable pub read_execution_order :
      ExecutionOrder → MigratorBuilder P V W → MigratorBuilder P V W
  read_execution_order order b = record b { builder_read_order = order }

  unfoldable pub track_latency_enabled : Bool → MigratorBuilder P V W → MigratorBuilder P V W
  track_latency_enabled enabled b = record b { builder_latency = enabled }

  unfoldable pub track_errors_enabled : Bool → MigratorBuilder P V W → MigratorBuilder P V W
  track_errors_enabled enabled b = record b { builder_errors = enabled }

  unfoldable pub read_with :
      MigrationImplFn P V W
      → MigrationImplFn P V W
      → Option (Option V → Option V → Bool)
      → MigratorBuilder P V W
      → MigratorBuilder P V W
  read_with old_read_fn new_read_fn comparison_fn b = record b {
    builder_read =
        some (record { old_impl = old_read_fn; new_impl = new_read_fn; compare = comparison_fn });
  }

  unfoldable pub write_with :
      MigrationImplFn P V W → MigrationImplFn P V W → MigratorBuilder P V W → MigratorBuilder P V W
  write_with old_write_fn new_write_fn b = record b {
    builder_write =
        some (record { old_impl = old_write_fn; new_impl = new_write_fn; compare = none });
  }

  unfoldable pub build_configured :
      MigratorBuilder P V W
      → Option (MigrationConfig P V W)
      → Option (MigrationConfig P V W)
      → MigratorImpl P V W ⊎ String
  build_configured b none write = inr "no read configuration has been provided"
  build_configured b (some r) none = inr "no write configuration has been provided"
  build_configured b (some r) (some w) = inl (record {
    read_execution_order = b.builder_read_order;
    read_config = r;
    write_config = w;
    measure_latency = b.builder_latency;
    measure_errors = b.builder_errors;
  })

  -- Build, of a builder that may be nil.
  unfoldable pub build_migrator : Option (MigratorBuilder P V W) → MigratorImpl P V W ⊎ String
  unfolding build_configured
  build_migrator none = inr "calling build on nil pointer"
  build_migrator (some b) =
      if b.has_client
      then build_configured b b.builder_read b.builder_write
      else inr "a valid client was not provided"

-- A call of a builder's method.
pub data Setting (P V W : Type 0) : Type 0 where
  set_order : ExecutionOrder → Setting P V W
  set_latency set_errors : Bool → Setting P V W
  set_read :
      (old_fn new_fn : MigrationImplFn P V W) (comparison : Option (Option V → Option V → Bool))
      → Setting P V W
  set_write : (old_fn new_fn : MigrationImplFn P V W) → Setting P V W

module _ {P V W : Type 0} where
  unfoldable pub configure : Setting P V W → MigratorBuilder P V W → MigratorBuilder P V W
  unfolding read_execution_order track_latency_enabled track_errors_enabled read_with write_with
  configure (set_order order) b = read_execution_order order b
  configure (set_latency enabled) b = track_latency_enabled enabled b
  configure (set_errors enabled) b = track_errors_enabled enabled b
  configure (set_read old_fn new_fn comparison) b = read_with old_fn new_fn comparison b
  configure (set_write old_fn new_fn) b = write_with old_fn new_fn b

  unfoldable pub configure_all :
      List (Setting P V W) → MigratorBuilder P V W → MigratorBuilder P V W
  unfolding configure
  configure_all [] b = b
  configure_all (x ∷ xs) b = configure_all xs (configure x b)

  -- The last value that a list of calls gives, or `old`.
  unfoldable pub last_given :
      {X : Type 0} → (Setting P V W → Option X) → X → List (Setting P V W) → X
  last_given f old [] = old
  last_given f old (x ∷ xs) = last_given f (or_else (f x) old) xs

  abbrev given_order : Setting P V W → Option ExecutionOrder
  given_order (set_order order) = some order
  given_order _ = none

  abbrev given_latency : Setting P V W → Option Bool
  given_latency (set_latency enabled) = some enabled
  given_latency _ = none

  abbrev given_errors : Setting P V W → Option Bool
  given_errors (set_errors enabled) = some enabled
  given_errors _ = none

  abbrev given_read : Setting P V W → Option (Option (MigrationConfig P V W))
  given_read (set_read old_fn new_fn comparison) =
      some (some (record { old_impl = old_fn; new_impl = new_fn; compare = comparison }))
  given_read _ = none

  abbrev given_write : Setting P V W → Option (Option (MigrationConfig P V W))
  given_write (set_write old_fn new_fn) =
      some (some (record { old_impl = old_fn; new_impl = new_fn; compare = none }))
  given_write _ = none

  -- Each setting of a builder is the last one that was given for it, whatever else was set in between.
  configure_all_lem :
      (xs : List (Setting P V W)) (b : MigratorBuilder P V W)
      → configure_all xs b ≡ record {
        has_client = b.has_client;
        builder_read_order = last_given given_order b.builder_read_order xs;
        builder_latency = last_given given_latency b.builder_latency xs;
        builder_errors = last_given given_errors b.builder_errors xs;
        builder_read = last_given given_read b.builder_read xs;
        builder_write = last_given given_write b.builder_write xs;
      }
  unfolding configure_all last_given
  configure_all_lem [] b = refl
  configure_all_lem (set_order order ∷ xs) b = configure_all_lem xs _
  configure_all_lem (set_latency enabled ∷ xs) b = configure_all_lem xs _
  configure_all_lem (set_errors enabled ∷ xs) b = configure_all_lem xs _
  configure_all_lem (set_read old_fn new_fn comparison ∷ xs) b = configure_all_lem xs _
  configure_all_lem (set_write old_fn new_fn ∷ xs) b = configure_all_lem xs _
