-- ===== src/Client/Described.antt =====
-- What a snapshot of AllFlagsState of ldclient.go shows of a flag, and the options that it is given.
use go_server_sdk.Prelude.{
  ℕ, String, string_eq, Bool, true, false, not, ◌&&◌, ◌||◌, ◌++◌, ltb, nat_eq, List, [], ◌∷◌,
  if◌then◌else◌, ◌==◌, Eq, ◌≡◌, refl, ◌∙◌, arith, Bool-cases,
}
use go_server_sdk.Types.{DataStore}
use go_server_sdk.FlagState.{
  FlagState, AllFlagsOptions, AllFlagsOption, trim, client_side_only, reasons,
  details_only_for_tracked_flags, apply, apply_all,
}
use go_server_sdk.Client.{Engine, PrerequisiteFlagEvent}
use go_server_sdk.Client.Flags.{has_client_side_only, direct_prerequisites, flag_state}

abbrev same_option : AllFlagsOption → AllFlagsOption → Bool
same_option client_side_only client_side_only = true
same_option reasons reasons = true
same_option details_only_for_tracked_flags details_only_for_tracked_flags = true
same_option _ _ = false

-- Whether an option is among those that are given.
abbrev pub given : AllFlagsOption → List AllFlagsOption → Bool
given o [] = false
given o (x ∷ xs) = same_option o x || given o xs

-- The options of the builder.
abbrev pub options_given : List AllFlagsOption → AllFlagsOptions
options_given options = record {
  with_reasons = given reasons options;
  details_only_if_tracked = given details_only_for_tracked_flags options;
}

pub apply_all_lem :
    (options : List AllFlagsOption) (o : AllFlagsOptions)
    → apply_all options o ≡ record {
      with_reasons = o.with_reasons || given reasons options;
      details_only_if_tracked =
          o.details_only_if_tracked || given details_only_for_tracked_flags options;
    }
unfolding apply_all apply
apply_all_lem [] o = ground arith
apply_all_lem (client_side_only ∷ os) o = apply_all_lem os o
apply_all_lem (reasons ∷ os) o = apply_all_lem os (record o { with_reasons = true }) ∙ ground arith
apply_all_lem (details_only_for_tracked_flags ∷ os) o =
    apply_all_lem os (record o { details_only_if_tracked = true }) ∙ ground arith

pub has_client_side_only_lem :
    (options : List AllFlagsOption) → has_client_side_only options ≡ given client_side_only options
unfolding has_client_side_only
has_client_side_only_lem [] = refl
has_client_side_only_lem (client_side_only ∷ os) = refl
has_client_side_only_lem (reasons ∷ os) = has_client_side_only_lem os
has_client_side_only_lem (details_only_for_tracked_flags ∷ os) = has_client_side_only_lem os

-- The prerequisites of the events whose target is the flag itself.
abbrev pub own_prerequisites : String → List PrerequisiteFlagEvent → List String
own_prerequisites key [] = []
own_prerequisites key (e ∷ events) =
    (if e.0 == key then e.1 ∷ [] else []) ++ own_prerequisites key events

direct_prerequisites_lem :
    (key : String) (events : List PrerequisiteFlagEvent)
    → direct_prerequisites key events ≡ own_prerequisites key events
unfolding direct_prerequisites
direct_prerequisites_lem key [] = refl
direct_prerequisites_lem key ((target, prerequisite) ∷ events) =
    ground (arith, direct_prerequisites_lem key events, Bool-cases (target == key))

module _ {A F X V T R S : Type 0} ⦃t : Eq T⦄ (engine : Engine A F X V T R)
    (store : DataStore A S) where
  -- What a snapshot shows of a flag. Its reason is kept if reasons are wanted or the flag is in an experiment; its
  -- details are left out if they are wanted for tracked flags only, and the flag is neither tracked, nor in
  -- an experiment, nor being debugged.
  abbrev pub described : ℕ → X → AllFlagsOptions → F → FlagState V R
  described now context options flag =
      let result = (engine.evaluate flag context).0 in
      let events = (engine.evaluate flag context).1 in
      let tracked = engine.flag_track_events flag || result.is_experiment in
      let until = engine.flag_debug_events_until_date flag in
      let debugged = not (until == 0) && ltb now until in
      record {
        value = result.detail.value;
        variation = result.detail.variation_index;
        version = engine.flag_version flag;
        reason =
            if options.with_reasons || result.is_experiment
            then result.detail.reason
            else engine.no_reason;
        track_events = tracked;
        track_reason = result.is_experiment;
        debug_events_until_date = until;
        omit_details =
            options.details_only_if_tracked && not (tracked || result.is_experiment || debugged);
        prerequisites = own_prerequisites (engine.flag_key flag) events;
      }

  pub described_lem :
      (now : ℕ) (context : X) (options : AllFlagsOptions) (flag : F)
      → trim engine.no_reason now options (flag_state engine store flag context)
        ≡ described now context options flag
  unfolding trim flag_state
  described_lem now context options flag =
      ground
        (arith, direct_prerequisites_lem (engine.flag_key flag) (engine.evaluate flag context).1)
