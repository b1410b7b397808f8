-- ===== src/Samples/Listeners.antt =====
-- A broadcaster with a listener.
use go_server_sdk.Prelude.{
  ℕ, true, false, List, [], ◌∷◌, some, ◌≡◌, refl, arith, lookup, nat_eq, if◌then◌else◌, member,
}
use go_server_sdk.Broadcasters.{Broadcaster, broadcast}
use go_server_sdk.Broadcasters.Delivery.{IsValid, received, broadcast_lem}
use go_server_sdk.Broadcasters.Runs.{
  Command, adding, removing, sending, run, any_ends, heard_all, run-received,
}

abbrev start : Broadcaster ℕ
start = record {
  subscribers = 0 ∷ [];
  channels = (0, record { sent = []; closed = false }) ∷ [];
  made = 1;
}

start-IsValid : IsValid start
unfolding lookup
start-IsValid = record {
  distinct = (refl, tt);
  all_open = λ j k. ground (arith, nat_eq.beq_iff 0 j);
  all_made = λ j k. ground (arith, nat_eq.beq_iff 0 j);
}

abbrev calls : List (Command ℕ)
calls = sending 5 ∷ adding ∷ removing 1 ∷ sending 6 ∷ []

broadcast_lem_example :
    (b' : Broadcaster ℕ) × (broadcast 5 start ≡ some b')
    × IsValid b'
    × (b'.subscribers ≡ start.subscribers)
    × ((j : ℕ)
        → received j b'.channels ≡ (
            if member j start.subscribers
            then 5 ∷ received j start.channels
            else received j start.channels))
broadcast_lem_example = broadcast_lem 5 start start-IsValid

run-received_example :
    (b' : Broadcaster ℕ) × (run calls start ≡ some b')
    × IsValid b'
    × ((ch : ℕ)
        → member ch start.subscribers ≡ true
        → any_ends ch calls ≡ false
        → received ch b'.channels ≡ heard_all calls (received ch start.channels))
run-received_example = run-received calls start start-IsValid
