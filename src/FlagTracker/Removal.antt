-- ===== src/FlagTracker/Removal.antt =====
-- The end of a value change subscription of internal/flag_tracker_impl.go.
use go_server_sdk.Prelude.{
  ℕ, nat_eq, String, true, false, not, ◌&&◌, none, some, ◌==◌, member, lookup, delete,
  lookup-delete, delete_absent, has_key_iff, is_some, if◌then◌else◌, ◌≡◌, ap, ◌∙◌, arith,
}
use go_server_sdk.Broadcasters.{Broadcaster, remove_listener}
use go_server_sdk.Broadcasters.Delivery.{is_open, IsValid, delete_func-Deleted}
use go_server_sdk.FlagTracker.{FlagTracker, remove_flag_value_change_listener}

-- Removing a value change listener that stands for the subscriber `ch` ends this subscription only: no
-- panic occurs, `ch` is closed, which ends the listener's goroutine, every other subscriber and channel
-- stays as it was, and removing the listener again changes nothing.
pub remove_flag_value_change_listener_lem :
    (listener ch : ℕ) (f : FlagTracker)
    → IsValid f.broadcaster
    → lookup listener f.value_change_subscriptions ≡ some ch
    → member ch f.broadcaster.subscribers ≡ true
    → (f' : FlagTracker) × (remove_flag_value_change_listener listener f ≡ some f')
      × ((j : ℕ)
          → member j f'.broadcaster.subscribers
            ≡ (member j f.broadcaster.subscribers && not (ch == j)))
      × ((j : ℕ)
          → is_open j f'.broadcaster.channels
            ≡ (if ch == j then false else is_open j f.broadcaster.channels))
      × (remove_flag_value_change_listener listener f' ≡ some f')
unfolding remove_flag_value_change_listener remove_listener
remove_flag_value_change_listener_lem listener ch f h found subscribed =
    let b = f.broadcaster in
    let subs = delete listener f.value_change_subscriptions in
    let (r, ended, del) = delete_func-Deleted ch b.subscribers b.channels h.distinct h.all_open in
    let b' : Broadcaster String = record b { subscribers = r.0; channels = r.1 } in
    let gone : lookup listener subs ≡ none = ground (
      arith,
      lookup-delete listener listener f.value_change_subscriptions,
      nat_eq.beq_iff listener listener,
    ) in
    let again : delete listener subs ≡ subs =
      delete_absent listener subs (has_key_iff listener subs ∙ ap is_some gone) in
    let f' : FlagTracker = record f { value_change_subscriptions = subs; broadcaster = b' } in
    (
      f',
      ground (arith, found, ended),
      del.left,
      λ j. ground (arith, del.open_left j, subscribed, nat_eq.beq_iff ch j),
      ground (arith, gone) ∙ ap (λ s. some (record f' { value_change_subscriptions = s })) again,
    )
