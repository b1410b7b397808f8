-- ===== src/Broadcasters.antt =====
-- internal/broadcasters.go: the publish-subscribe model of the status and change events.
-- Channels are numbered in the order in which they are made. A channel lists what was sent on it, the
-- last value first; a Broadcast that waits for room in a buffer is a step that ends later. A send on a
-- closed channel, and a second close, is a panic: `none`.
pub mod Delivery
pub mod Runs
use go_server_sdk.Prelude.{
  ℕ, suc, nat_eq, Bool, true, false, Option, none, some, List, [], ◌∷◌, ◌++◌, ◌==◌, Map, lookup,
  insert, if◌then◌else◌,
}

pub record Channel (V : Type 0) : Type 0 where
  pub sent : List V
  pub closed : Bool

abbrev pub Channels : Type 0 → Type 0
Channels V = Map ℕ (Channel V)

-- The subscribers, and the channels that were made.
pub record Broadcaster (V : Type 0) : Type 0 where
  pub subscribers : List ℕ
  pub channels : Channels V
  pub made : ℕ

module _ {V : Type 0} where
  unfoldable pub new_broadcaster : Broadcaster V
  new_broadcaster = record { subscribers = []; channels = []; made = 0 }

  unfoldable pub add_listener : Broadcaster V → ℕ × Broadcaster V
  add_listener b = (
    b.made,
    record {
      subscribers = b.subscribers ++ b.made ∷ [];
      channels = insert b.made (record { sent = []; closed = false }) b.channels;
      made = suc b.made;
    },
  )

  -- `close(ch)`
  unfoldable pub close_channel : ℕ → Channels V → Option (Channels V)
  close_channel ch m = elim (lookup ch m) [
    | none ↦ none
    | some c ↦ if c.closed then none else some (insert ch (record c { closed = true }) m)
  ]

  -- `ch <- value`
  unfoldable pub send : ℕ → V → Channels V → Option (Channels V)
  send ch value m = elim (lookup ch m) [
    | none ↦ none
    | some c ↦ if c.closed then none else some (insert ch (record c { sent = value ∷ c.sent }) m)
  ]

  unfoldable pub send_all : V → List ℕ → Channels V → Option (Channels V)
  send_all value [] m = some m
  send_all value (ch ∷ chs) m = elim (send ch value m) [
    | none ↦ none
    | some m' ↦ send_all value chs m'
  ]

  unfoldable pub broadcast : V → Broadcaster V → Option (Broadcaster V)
  unfolding send_all
  broadcast value b = elim (send_all value b.subscribers b.channels) [
    | none ↦ none
    | some m ↦ some (record b { channels = m })
  ]

  -- DeleteFunc: it closes and drops the subscribers that are the given channel, and keeps the others.
  unfoldable pub delete_func : ℕ → List ℕ → Channels V → Option (List ℕ × Channels V)
  delete_func ch [] m = some ([], m)
  delete_func ch (s ∷ subs) m =
      if s == ch
      then elim (close_channel s m) [ none ↦ none | some m' ↦ delete_func ch subs m' ]
      else elim (delete_func ch subs m) [ none ↦ none | some r ↦ some (s ∷ r.0, r.1) ]

  unfoldable pub remove_listener : ℕ → Broadcaster V → Option (Broadcaster V)
  unfolding delete_func
  remove_listener ch b = elim (delete_func ch b.subscribers b.channels) [
    | none ↦ none
    | some (subs, m) ↦ some (record b { subscribers = subs; channels = m })
  ]

  abbrev pub has_listeners : Broadcaster V → Bool
  has_listeners b = elim b.subscribers [ [] ↦ false | _ ∷ _ ↦ true ]

  unfoldable pub close_all : List ℕ → Channels V → Option (Channels V)
  close_all [] m = some m
  close_all (ch ∷ chs) m = elim (close_channel ch m) [ none ↦ none | some m' ↦ close_all chs m' ]

  unfoldable pub close : Broadcaster V → Option (Broadcaster V)
  unfolding close_all
  close b = elim (close_all b.subscribers b.channels) [
    | none ↦ none
    | some m ↦ some (record b { subscribers = []; channels = m })
  ]
