-- ===== src/FlagState/Adding.antt =====
-- What a snapshot of interfaces/flagstate/flags_state.go holds.
use go_server_sdk.Prelude.{
  ℕ, String, string_eq, some, [], ◌∷◌, Map, lookup, insert, NodupKeys, lookup-insert,
  insert-NodupKeys, has_key_iff, map_option, first_some, first_some-none, or_else, if◌then◌else◌,
  ◌==◌, ◌≡◌, refl, ap, ◌∙◌, arith,
}
use go_server_sdk.FlagState.{
  FlagState, AllFlags, AllFlagsBuilder, get_flag, get_value, to_values, to_values_map, build, trim,
  add_flag,
}

module _ {V R : Type 0} where
  -- A flag that is added is found, with what AddFlag records of it, and the others as before.
  pub get_flag-add_flag :
      (no_reason : R) (now : ℕ) (k j : String) (flag : FlagState V R) (b : AllFlagsBuilder V R)
      → get_flag j (build (add_flag no_reason now k flag b))
        ≡ (if k == j then some (trim no_reason now b.options flag) else get_flag j (build b))
  unfolding get_flag build add_flag
  get_flag-add_flag no_reason now k j flag b =
      lookup-insert k j (trim no_reason now b.options flag) b.state.flags

  pub add_flag-NodupKeys :
      (no_reason : R) (now : ℕ) (k : String) (flag : FlagState V R) (b : AllFlagsBuilder V R)
      → NodupKeys (b.state.flags)
      → NodupKeys ((add_flag no_reason now k flag b).state.flags)
  unfolding add_flag
  add_flag-NodupKeys no_reason now k flag b h =
      insert-NodupKeys k (trim no_reason now b.options flag) b.state.flags h

  lookup-to_values :
      (k : String) (flags : Map String (FlagState V R)) (ret : Map String V)
      → NodupKeys flags
      → lookup k (to_values flags ret)
        ≡ first_some (map_option (λ f. f.value) (lookup k flags)) (lookup k ret)
  unfolding to_values lookup
  lookup-to_values k [] ret h = refl
  lookup-to_values k ((j, f) ∷ flags) ret h = ground (
    arith,
    lookup-to_values k flags (insert j f.value ret) h.1,
    lookup-insert j k f.value ret,
    has_key_iff j flags,
    h.0,
    string_eq.beq_iff j k,
  )

  -- ToValuesMap has the value of each flag that GetFlag finds, and no others, and agrees with GetValue.
  pub to_values_map_lem :
      (null : V) (k : String) (a : AllFlags V R)
      → NodupKeys a.flags
      → (lookup k (to_values_map a) ≡ map_option (λ f. f.value) (get_flag k a))
        × (or_else (lookup k (to_values_map a)) null ≡ get_value null k a)
  unfolding to_values_map get_flag get_value lookup
  to_values_map_lem null k a h =
      let same =
        lookup-to_values k a.flags [] h
        ∙ first_some-none (map_option (λ f. f.value) (lookup k a.flags)) in
      (same, ap (λ o. or_else o null) same)
