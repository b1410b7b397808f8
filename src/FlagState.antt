-- ===== src/FlagState.antt =====
-- interfaces/flagstate/flags_state.go: the snapshot of all flags and its builder. `V` is ldvalue.Value with
-- `null`, `R` is ldreason.EvaluationReason with its zero value `no_reason`. The JSON output is left out.
pub mod Adding
use go_server_sdk.Prelude.{
  ℕ, ltb, String, string_eq, ℤ, pos, Bool, true, false, not, ◌&&◌, Option, none, some, is_some,
  List, [], ◌∷◌, Map, lookup, insert, map_option, or_else, if◌then◌else◌, nat_eq, ◌==◌,
}

pub record FlagState (V R : Type 0) : Type 0 where
  pub value : V
  pub variation : Option ℕ
  pub version : ℤ
  pub reason : R
  pub track_events : Bool
  pub track_reason : Bool
  pub debug_events_until_date : ℕ
  pub omit_details : Bool
  pub prerequisites : List String

-- `flags` is nil in the zero value, which reads as the empty map.
pub record AllFlags (V R : Type 0) : Type 0 where
  pub flags : Map String (FlagState V R)
  pub valid : Bool

abbrev pub no_flags : {V R : Type 0} → AllFlags V R
no_flags = record { flags = []; valid = false }

pub record AllFlagsOptions : Type 0 where
  pub with_reasons : Bool
  pub details_only_if_tracked : Bool

pub record AllFlagsBuilder (V R : Type 0) : Type 0 where
  pub state : AllFlags V R
  pub options : AllFlagsOptions

-- The three implementations of Option.
pub data AllFlagsOption : Type 0 where
  client_side_only : AllFlagsOption
  reasons : AllFlagsOption
  details_only_for_tracked_flags : AllFlagsOption

unfoldable pub apply : AllFlagsOption → AllFlagsOptions → AllFlagsOptions
apply client_side_only options = options
apply reasons options = record options { with_reasons = true }
apply details_only_for_tracked_flags options = record options { details_only_if_tracked = true }

-- The loop of NewAllFlagsBuilder.
unfoldable pub apply_all : List AllFlagsOption → AllFlagsOptions → AllFlagsOptions
unfolding apply
apply_all [] options = options
apply_all (o ∷ os) options = apply_all os (apply o options)

module _ {V R : Type 0} where
  -- GetFlag, with `none` for "no such flag".
  unfoldable pub get_flag : String → AllFlags V R → Option (FlagState V R)
  get_flag flag_key a = lookup flag_key a.flags

  -- The zero value of a FlagState has a null value.
  unfoldable pub get_value : V → String → AllFlags V R → V
  get_value null flag_key a = or_else (map_option (λ f. f.value) (lookup flag_key a.flags)) null

  -- The loop of ToValuesMap; a Go map has each key once, so it visits an entry once.
  unfoldable pub to_values : Map String (FlagState V R) → Map String V → Map String V
  to_values [] ret = ret
  to_values ((k, v) ∷ flags) ret = to_values flags (insert k v.value ret)

  unfoldable pub to_values_map : AllFlags V R → Map String V
  unfolding to_values
  to_values_map a = to_values a.flags []

  unfoldable pub new_all_flags_builder : List AllFlagsOption → AllFlagsBuilder V R
  unfolding apply_all
  new_all_flags_builder options = record {
    state = record { flags = []; valid = true };
    options = apply_all options (record { with_reasons = false; details_only_if_tracked = false });
  }

  unfoldable pub build : AllFlagsBuilder V R → AllFlags V R
  build b = record { flags = b.state.flags; valid = b.state.valid }

  -- What AddFlag records of a flag at the time `now`.
  unfoldable pub trim : R → ℕ → AllFlagsOptions → FlagState V R → FlagState V R
  trim no_reason now options flag =
      let debugging =
        not (flag.debug_events_until_date == 0) && ltb now flag.debug_events_until_date in
      let flag₁ : FlagState V R =
        if options.details_only_if_tracked
        then (if not flag.track_events && (not flag.track_reason && not debugging)
            then record flag { omit_details = true }
            else flag)
        else flag in
      if not options.with_reasons && not flag₁.track_reason
      then record flag₁ { reason = no_reason }
      else flag₁

  unfoldable pub add_flag :
      R → ℕ → String → FlagState V R → AllFlagsBuilder V R → AllFlagsBuilder V R
  unfolding trim
  add_flag no_reason now flag_key flag b = record b {
    state = record (b.state) {
      flags = insert flag_key (trim no_reason now b.options flag) b.state.flags;
    };
  }
