-- ===== src/Broadcasters/Runs.antt =====
-- Sequences of calls of a broadcaster.
use go_server_sdk.Prelude.{
  ℕ, nat_eq, Bool, true, false, ◌||◌, Option, none, some, List, [], ◌∷◌, ◌==◌, member,
  member-append, append-IsDistinct, lookup-insert, ◌≡◌, refl, ap, ◌∙◌, arith,
}
use go_server_sdk.Broadcasters.{
  Broadcaster, new_broadcaster, add_listener, broadcast, remove_listener, close,
}
use go_server_sdk.Broadcasters.Delivery.{
  received, close_all-Closed, delete_func-Deleted, IsValid, broadcast_lem,
}

pub data Command (V : Type 0) : Type 0 where
  adding : Command V
  removing : (ch : ℕ) → Command V
  sending : (value : V) → Command V
  closing : Command V

module _ {V : Type 0} where
  abbrev pub step : Command V → Broadcaster V → Option (Broadcaster V)
  step adding b = some (add_listener b).1
  step (removing ch) b = remove_listener ch b
  step (sending value) b = broadcast value b
  step closing b = close b

  abbrev pub run : List (Command V) → Broadcaster V → Option (Broadcaster V)
  run [] b = some b
  run (c ∷ cs) b = elim (step c b) [ none ↦ none | some b' ↦ run cs b' ]

  -- The call ends the subscription of `ch`.
  abbrev pub ends : ℕ → Command V → Bool
  ends ch (removing j) = j == ch
  ends ch closing = true
  ends ch _ = false

  -- What a subscriber has after the call.
  abbrev pub heard : Command V → List V → List V
  heard (sending value) l = value ∷ l
  heard _ l = l

  -- One call from a state to the next.
  record Next (c : Command V) (b b' : Broadcaster V) : Type 0 where
    valid : IsValid b'
    stays :
        (ch : ℕ)
        → member ch b.subscribers ≡ true
        → ends ch c ≡ false
        → member ch b'.subscribers ≡ true
    hears :
        (ch : ℕ)
        → member ch b.subscribers ≡ true
        → received ch b'.channels ≡ heard c (received ch b.channels)

  step-Next :
      (c : Command V) (b : Broadcaster V)
      → IsValid b
      → (b' : Broadcaster V) × (step c b ≡ some b') × Next c b b'
  unfolding add_listener remove_listener close
  step-Next adding b h = (
    (add_listener b).1,
    refl,
    record {
      valid = record {
        distinct =
            append-IsDistinct b.made b.subscribers h.distinct (ground (arith, h.all_made b.made));
        all_open = λ j k. ground (
          arith,
          h.all_open j,
          member-append j b.made b.subscribers,
          k,
          nat_eq.beq_iff b.made j,
          lookup-insert b.made j (record { sent = []; closed = false }) b.channels,
        );
        all_made = λ j k.
            ground (
              arith,
              h.all_made j,
              member-append j b.made b.subscribers,
              k,
              nat_eq.beq_iff b.made j,
            );
      };
      stays = λ ch k e. ground (arith, member-append ch b.made b.subscribers, k);
      hears = λ ch k. ground (
        arith,
        h.all_made ch k,
        nat_eq.beq_iff b.made ch,
        lookup-insert b.made ch (record { sent = []; closed = false }) b.channels,
      );
    },
  )
  step-Next (removing ch) b h =
      let (r, ended, del) = delete_func-Deleted ch b.subscribers b.channels h.distinct h.all_open in
      (
        record b { subscribers = r.0; channels = r.1 },
        ground (arith, ended),
        record {
          valid = record {
            distinct = del.distinct;
            all_open = λ j k. ground (arith, del.left j, del.open_left j, h.all_open j, k);
            all_made = λ j k. ground (arith, del.left j, h.all_made j, k);
          };
          stays = λ j k e. ground (arith, del.left j, k, e);
          hears = λ j k. del.same_received j;
        },
      )
  step-Next (sending v) b h =
      let (b', sent, valid, same, all) = broadcast_lem v b h in
      (
        b',
        sent,
        record {
          valid = valid;
          stays = λ j k e. ap (λ l. member j l) same ∙ k;
          hears = λ j k. ground (arith, all j, k);
        },
      )
  step-Next closing b h =
      let (m, ended, all) = close_all-Closed b.subscribers b.channels h.distinct h.all_open in
      (
        record b { subscribers = []; channels = m },
        ground (arith, ended),
        record {
          valid = record { distinct = tt; all_open = λ j k. cc; all_made = λ j k. cc };
          stays = λ j k e. cc;
          hears = λ j k. all.same_sent j;
        },
      )

  abbrev pub any_ends : ℕ → List (Command V) → Bool
  any_ends ch [] = false
  any_ends ch (c ∷ cs) = ends ch c || any_ends ch cs

  abbrev pub heard_all : List (Command V) → List V → List V
  heard_all [] l = l
  heard_all (c ∷ cs) l = heard_all cs (heard c l)

  -- From a valid broadcaster no sequence of calls panics, and a subscriber receives, once each and in
  -- their order, exactly the values that are broadcast, as long as no call ends its subscription.
  pub run-received :
      (cs : List (Command V)) (b : Broadcaster V)
      → IsValid b
      → (b' : Broadcaster V) × (run cs b ≡ some b')
        × IsValid b'
        × ((ch : ℕ)
            → member ch b.subscribers ≡ true
            → any_ends ch cs ≡ false
            → received ch b'.channels ≡ heard_all cs (received ch b.channels))
  run-received [] b h = (b, refl, h, λ ch k e. refl)
  run-received (c ∷ cs) b h =
      let (b1, first, next) = step-Next c b h in
      let (b2, rest, valid, all) = run-received cs b1 next.valid in
      (
        b2,
        rw (first, run) rest,
        valid,
        λ ch k e.
            all ch (next.stays ch k (ground arith)) (ground arith)
            ∙ ap (heard_all cs) (next.hears ch k),
      )

pub new_broadcaster-IsValid : (V : Type 0) → IsValid (new_broadcaster {V = V})
unfolding new_broadcaster
new_broadcaster-IsValid V = record { distinct = tt; all_open = λ j k. cc; all_made = λ j k. cc }
