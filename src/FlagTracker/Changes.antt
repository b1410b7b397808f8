-- ===== src/FlagTracker/Changes.antt =====
-- The events that a value change listener of internal/flag_tracker_impl.go posts.
use go_server_sdk.Prelude.{
  String, string_eq, Eq, List, [], ◌∷◌, ◌==◌, if◌then◌else◌, ◌≡◌, refl, arith,
}
use go_server_sdk.FlagTracker.{FlagValueChangeEvent, listen, run_value_change_listener}

-- What the flag is worth at each message about it.
abbrev pub values_of : {V : Type 0} → String → List (String × V) → List V
values_of flag_key [] = []
values_of flag_key ((key, v) ∷ messages) =
    if key == flag_key then v ∷ values_of flag_key messages else values_of flag_key messages

-- The neighbours in a list that differ.
abbrev pub changes : {V : Type 0} ⦃e : Eq V⦄ → String → V → List V → List (FlagValueChangeEvent V)
changes flag_key v [] = []
changes flag_key v (w ∷ ws) =
    if v == w
    then changes flag_key w ws
    else record { key = flag_key; old_value = v; new_value = w } ∷ changes flag_key w ws

-- A value change listener posts an event for each two successive values of its flag that differ, in their
-- order, where the first value is the one when it starts; messages about other flags do not matter.
pub run_value_change_listener_lem :
    {V : Type 0} ⦃e : Eq V⦄ (flag_key : String) (initial : V) (messages : List (String × V))
    → run_value_change_listener flag_key initial messages
      ≡ changes flag_key initial (values_of flag_key messages)
unfolding run_value_change_listener listen
run_value_change_listener_lem flag_key v [] = refl
run_value_change_listener_lem ⦃e⦄ flag_key v ((key, w) ∷ messages) = ground (
  arith,
  run_value_change_listener_lem flag_key v messages,
  run_value_change_listener_lem flag_key w messages,
  e.beq_iff v w,
  e.beq_iff w v,
)
