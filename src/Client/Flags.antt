-- ===== src/Client/Flags.antt =====
-- AllFlagsState of ldclient.go. The time `now` stands still during the call.
use go_server_sdk.Prelude.{
  ℕ, String, string_eq, Bool, true, false, not, ◌&&◌, ◌||◌, none, some, List, [], ◌∷◌,
  if◌then◌else◌, ◌==◌, Eq,
}
use go_server_sdk.Types.{features, DataStore, ItemDescriptor, KeyedItemDescriptor}
use go_server_sdk.FlagState.{
  FlagState, AllFlags, no_flags, AllFlagsBuilder, AllFlagsOption, client_side_only,
  new_all_flags_builder, build, add_flag,
}
use go_server_sdk.Client.{Engine, PrerequisiteFlagEvent, Client, has_data}

-- The prerequisites that are evaluated for the flag itself, in their order.
unfoldable pub direct_prerequisites : String → List PrerequisiteFlagEvent → List String
direct_prerequisites key [] = []
direct_prerequisites key ((target, prerequisite) ∷ events) =
    let rest = direct_prerequisites key events in
    if target == key then prerequisite ∷ rest else rest

-- The loop that looks for OptionClientSideOnly.
unfoldable pub has_client_side_only : List AllFlagsOption → Bool
has_client_side_only [] = false
has_client_side_only (client_side_only ∷ options) = true
has_client_side_only (_ ∷ options) = has_client_side_only options

module _ {A F X V T R S : Type 0} ⦃t : Eq T⦄ (engine : Engine A F X V T R)
    (store : DataStore A S) where
  -- The state that is given to AddFlag.
  unfoldable pub flag_state : F → X → FlagState V R
  unfolding direct_prerequisites
  flag_state flag context =
      let (result, events) = engine.evaluate flag context in
      record {
        value = result.detail.value;
        variation = result.detail.variation_index;
        version = engine.flag_version flag;
        reason = result.detail.reason;
        track_events = engine.flag_track_events flag || result.is_experiment;
        track_reason = result.is_experiment;
        debug_events_until_date = engine.flag_debug_events_until_date flag;
        omit_details = false;
        prerequisites = direct_prerequisites (engine.flag_key flag) events;
      }

  -- The body of the loop for an item.
  unfoldable pub add_item :
      ℕ → X → Bool → String → ItemDescriptor A → AllFlagsBuilder V R → AllFlagsBuilder V R
  add_item now context only key item state = elim item.item [
    | none ↦ state
    | some a ↦ elim (engine.as_flag a) [
      | none ↦ state
      | some flag ↦
          if only && not (engine.using_environment_id flag)
          then state
          else add_flag engine.no_reason now key (flag_state flag context) state
    ]
  ]

  unfoldable pub add_items :
      ℕ → X → Bool → List (KeyedItemDescriptor A) → AllFlagsBuilder V R → AllFlagsBuilder V R
  unfolding add_item
  add_items now context only [] state = state
  add_items now context only ((key, item) ∷ items) state =
      add_items now context only items (add_item now context only key item state)

  unfoldable pub all_flags_state :
      ℕ → X → List AllFlagsOption → Client F X V R S → AllFlags V R × Client F X V R S
  unfolding has_client_side_only add_items
  all_flags_state now context options client =
      if client.offline
      then (no_flags, client)
      else (let (ready, c₁) = has_data engine store client in
          if not ready
          then (no_flags, c₁)
          else (let ((items, err), s) = store.get_all features c₁.data_store in
              let c₂ : Client F X V R S = record c₁ { data_store = s } in
              elim err [
                | some _ ↦ (no_flags, c₂)
                | none ↦ (
                  build (
                      add_items now context (has_client_side_only options) items
                        (new_all_flags_builder options)),
                  c₂,
                )
              ]))
