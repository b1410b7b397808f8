-- ===== src/Client/Snapshot.antt =====
-- What the snapshot of AllFlagsState of ldclient.go holds.
use go_server_sdk.Prelude.{
  ℕ, String, string_eq, Bool, true, false, not, ◌&&◌, nat_eq, Option, none, some, List, [], ◌∷◌,
  lookup, first_some, first_some-none, if◌then◌else◌, ◌==◌, Eq, ◌≡◌, refl, ap, ◌∙◌, arith,
  Bool-cases, Option-cases, inl, inr,
}
use go_server_sdk.Types.{features, DataStore, ItemDescriptor, KeyedItemDescriptor}
use go_server_sdk.FlagState.{
  FlagState, AllFlagsOptions, AllFlagsBuilder, AllFlagsOption, get_flag, new_all_flags_builder,
  build, add_flag, client_side_only,
}
use go_server_sdk.FlagState.Adding.{get_flag-add_flag}
use go_server_sdk.Client.{Engine, Client, has_data}
use go_server_sdk.Client.Flags.{
  has_client_side_only, flag_state, add_item, add_items, all_flags_state,
}
use go_server_sdk.Client.Described.{
  given, options_given, apply_all_lem, has_client_side_only_lem, described, described_lem,
}

module _ {A F X V T R S : Type 0} ⦃t : Eq T⦄ (engine : Engine A F X V T R)
    (store : DataStore A S) where
  -- What a snapshot shows of an item: nothing of a tombstone, of an item that is not a flag, and, if only
  -- client-side flags are wanted, of another flag.
  unfoldable pub shown : ℕ → X → Bool → AllFlagsOptions → ItemDescriptor A → Option (FlagState V R)
  shown now context only options item = elim item.item [
    | none ↦ none
    | some a ↦ elim (engine.as_flag a) [
      | none ↦ none
      | some flag ↦
          if only && not (engine.using_environment_id flag)
          then none
          else some (described engine store now context options flag)
    ]
  ]

  -- Of the items under a key, the last one that is shown.
  abbrev pub last_shown :
      ℕ
      → X
      → Bool
      → AllFlagsOptions
      → String
      → List (KeyedItemDescriptor A)
      → Option (FlagState V R)
  last_shown now context only options k [] = none
  last_shown now context only options k ((key, item) ∷ items) =
      first_some (last_shown now context only options k items)
        (if key == k then shown now context only options item else none)

  get_flag-add_item :
      (now : ℕ) (context : X) (only : Bool) (k key : String) (item : ItemDescriptor A)
      (b : AllFlagsBuilder V R)
      → get_flag k (build (add_item engine store now context only key item b))
        ≡ first_some
            (if key == k then shown now context only b.options item else none)
            (get_flag k (build b))
  unfolding add_item shown
  get_flag-add_item now context only k key item b = elim (Option-cases item.item) [
    | inl e ↦ ground (arith, e, Bool-cases (key == k))
    | inr (a, e) ↦ elim (Option-cases (engine.as_flag a)) [
      | inl f ↦ ground (arith, e, f, Bool-cases (key == k))
      | inr (flag, f) ↦ ground (
        arith,
        e,
        f,
        get_flag-add_flag engine.no_reason now key k (flag_state engine store flag context) b,
        described_lem engine store now context b.options flag,
        Bool-cases (key == k),
        Bool-cases (only && not (engine.using_environment_id flag)),
      )
    ]
  ]

  options-add_item :
      (now : ℕ) (context : X) (only : Bool) (key : String) (item : ItemDescriptor A)
      (b : AllFlagsBuilder V R)
      → (add_item engine store now context only key item b).options ≡ b.options
  unfolding add_item add_flag
  options-add_item now context only key item b = elim (Option-cases item.item) [
    | inl e ↦ ground (arith, e)
    | inr (a, e) ↦ elim (Option-cases (engine.as_flag a)) [
      | inl f ↦ ground (arith, e, f)
      | inr (flag, f) ↦
          ground (arith, e, f, Bool-cases (only && not (engine.using_environment_id flag)))
    ]
  ]

  valid-add_item :
      (now : ℕ) (context : X) (only : Bool) (key : String) (item : ItemDescriptor A)
      (b : AllFlagsBuilder V R)
      → (add_item engine store now context only key item b).state.valid ≡ b.state.valid
  unfolding add_item add_flag
  valid-add_item now context only key item b = elim (Option-cases item.item) [
    | inl e ↦ ground (arith, e)
    | inr (a, e) ↦ elim (Option-cases (engine.as_flag a)) [
      | inl f ↦ ground (arith, e, f)
      | inr (flag, f) ↦
          ground (arith, e, f, Bool-cases (only && not (engine.using_environment_id flag)))
    ]
  ]

  get_flag-add_items :
      (now : ℕ) (context : X) (only : Bool) (k : String) (items : List (KeyedItemDescriptor A))
      (b : AllFlagsBuilder V R)
      → get_flag k (build (add_items engine store now context only items b))
        ≡ first_some (last_shown now context only b.options k items) (get_flag k (build b))
  unfolding add_items
  get_flag-add_items now context only k [] b = refl
  get_flag-add_items now context only k ((key, item) ∷ items) b =
      let b₁ = add_item engine store now context only key item b in
      ground (
        arith,
        get_flag-add_items now context only k items b₁,
        options-add_item now context only key item b,
        get_flag-add_item now context only k key item b,
      )

  valid-add_items :
      (now : ℕ) (context : X) (only : Bool) (items : List (KeyedItemDescriptor A))
      (b : AllFlagsBuilder V R)
      → (add_items engine store now context only items b).state.valid ≡ b.state.valid
  unfolding add_items
  valid-add_items now context only [] b = refl
  valid-add_items now context only ((key, item) ∷ items) b =
      valid-add_items now context only items (add_item engine store now context only key item b)
      ∙ valid-add_item now context only key item b

  new_snapshot :
      (now : ℕ) (context : X) (options : List AllFlagsOption) (client : Client F X V R S)
      → client.offline ≡ false
      → (has_data engine store client).0 ≡ true
      → (store.get_all features (has_data engine store client).1.data_store).0.1 ≡ none
      → (all_flags_state engine store now context options client).0
        ≡ build (
            add_items engine store now context
              (has_client_side_only options)
              (store.get_all features (has_data engine store client).1.data_store).0.0
              (new_all_flags_builder options))
  unfolding all_flags_state
  new_snapshot now context options client online ready fetched =
      ground (arith, online, ready, fetched)

  no_flags_yet :
      (options : List AllFlagsOption) (k : String)
      → get_flag k (build (new_all_flags_builder {V = V} {R = R} options)) ≡ none
  unfolding get_flag build new_all_flags_builder lookup
  no_flags_yet options k = refl

  -- Where the client is online and has data, and the store returns its flags, the snapshot is valid, and
  -- has under each key what it shows (shown) of the last item under that key that is a flag and, if only
  -- client-side flags are wanted, is one; and no other flags.
  pub all_flags_state_lem :
      (now : ℕ) (context : X) (options : List AllFlagsOption) (client : Client F X V R S)
      (k : String)
      → client.offline ≡ false
      → (has_data engine store client).0 ≡ true
      → (store.get_all features (has_data engine store client).1.data_store).0.1 ≡ none
      → ((all_flags_state engine store now context options client).0.valid ≡ true)
        × (get_flag k (all_flags_state engine store now context options client).0
            ≡ last_shown now context
                (given client_side_only options)
                (options_given options)
                k
                (store.get_all features (has_data engine store client).1.data_store).0.0)
  unfolding build new_all_flags_builder
  all_flags_state_lem now context options client k online ready fetched =
      let items = (store.get_all features (has_data engine store client).1.data_store).0.0 in
      let only = has_client_side_only options in
      let b : AllFlagsBuilder V R = new_all_flags_builder options in
      let same = new_snapshot now context options client online ready fetched in
      let shown_last = last_shown now context only b.options k items in
      let same_options : b.options ≡ options_given options = apply_all_lem options _ in
      (
        ap (λ a. a.valid) same ∙ valid-add_items now context only items b,
        ap (get_flag k) same
            ∙ get_flag-add_items now context only k items b
            ∙ ap (first_some shown_last) (no_flags_yet options k)
            ∙ first_some-none shown_last
            ∙ ap (λ o. last_shown now context only o k items) same_options
            ∙ ap (λ c. last_shown now context c (options_given options) k items)
                (has_client_side_only_lem options),
      )
