-- ===== src/FlagTracker.antt =====
-- internal/flag_tracker_impl.go: the listeners of flag changes and of flag value changes.
-- Value change channels are numbered in the order in which they are made. The goroutine of a value change
-- listener reads a list of messages, each with what evaluateFn would return when the message is read; a
-- channel with room for what it posts is assumed.
pub mod Changes
pub mod Removal
use go_server_sdk.Prelude.{
  ℕ, suc, nat_eq, String, string_eq, Option, none, some, List, [], ◌∷◌, Map, lookup, insert, delete,
  ◌==◌, if◌then◌else◌, Eq, not, map_option,
}
use go_server_sdk.Broadcasters.{Broadcaster, add_listener, remove_listener}

pub record FlagValueChangeEvent (V : Type 0) : Type 0 where
  pub key : String
  pub old_value : V
  pub new_value : V

-- The broadcast events are the keys of the changed flags.
pub record FlagTracker : Type 0 where
  pub broadcaster : Broadcaster String
  pub value_change_subscriptions : Map ℕ ℕ
  pub value_channels : ℕ

unfoldable pub new_flag_tracker : Broadcaster String → FlagTracker
new_flag_tracker broadcaster = record {
  broadcaster = broadcaster;
  value_change_subscriptions = [];
  value_channels = 0;
}

unfoldable pub add_flag_change_listener : FlagTracker → ℕ × FlagTracker
unfolding add_listener
add_flag_change_listener f =
    let (ch, b) = add_listener f.broadcaster in (ch, record f { broadcaster = b })

unfoldable pub remove_flag_change_listener : ℕ → FlagTracker → Option FlagTracker
remove_flag_change_listener listener f =
    map_option (λ b. record f { broadcaster = b }) (remove_listener listener f.broadcaster)

unfoldable pub add_flag_value_change_listener : FlagTracker → ℕ × FlagTracker
unfolding add_listener
add_flag_value_change_listener f =
    let (flag_ch, b) = add_listener f.broadcaster in
    let value_ch = f.value_channels in
    (
      value_ch,
      record {
        broadcaster = b;
        value_change_subscriptions = insert value_ch flag_ch f.value_change_subscriptions;
        value_channels = suc value_ch;
      },
    )

unfoldable pub remove_flag_value_change_listener : ℕ → FlagTracker → Option FlagTracker
remove_flag_value_change_listener listener f =
    let f₁ : FlagTracker = record f {
      value_change_subscriptions = delete listener f.value_change_subscriptions;
    } in
    elim (lookup listener f.value_change_subscriptions) [
      | none ↦ some f₁
      | some flag_ch ↦
          map_option (λ b. record f₁ { broadcaster = b }) (remove_listener flag_ch f.broadcaster)
    ]

-- The loop of runValueChangeListener, until its channel is closed.
unfoldable pub listen :
    {V : Type 0} ⦃e : Eq V⦄ → String → V → List (String × V) → List (FlagValueChangeEvent V)
listen flag_key current_value [] = []
listen flag_key current_value ((key, new_value) ∷ messages) =
    let unchanged = listen flag_key current_value messages in
    let changed = listen flag_key new_value messages in
    if not (key == flag_key)
    then unchanged
    else if new_value == current_value
    then unchanged
    else record { key = flag_key; old_value = current_value; new_value = new_value } ∷ changed

-- `initial` is what evaluateFn returns when the goroutine starts.
unfoldable pub run_value_change_listener :
    {V : Type 0} ⦃e : Eq V⦄ → String → V → List (String × V) → List (FlagValueChangeEvent V)
run_value_change_listener flag_key initial messages = listen flag_key initial messages
