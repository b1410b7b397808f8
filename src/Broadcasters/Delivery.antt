-- ===== src/Broadcasters/Delivery.antt =====
-- What the subscribers of a broadcaster receive, and that no call panics.
use go_server_sdk.Prelude.{
  ℕ, ◌<◌, nat_eq, Bool, true, false, not, ◌&&◌, none, some, List, [], ◌∷◌, ◌==◌, lookup, insert,
  if◌then◌else◌, member, IsDistinct, lookup-insert, ◌≡◌, refl, ◌∙◌, arith, Bool-cases, Option-cases,
  inl, inr,
}
use go_server_sdk.Broadcasters.{
  Channels, Broadcaster, close_channel, send, send_all, broadcast, delete_func, close_all,
}

module _ {V : Type 0} where
  abbrev pub is_open : ℕ → Channels V → Bool
  is_open ch m = elim (lookup ch m) [ none ↦ false | some c ↦ not c.closed ]

  -- What was sent on a channel, the last value first.
  abbrev pub received : ℕ → Channels V → List V
  received ch m = elim (lookup ch m) [ none ↦ [] | some c ↦ c.sent ]

  record Sent (v : V) (cs : List ℕ) (m m' : Channels V) : Type 0 where
    same_open : (j : ℕ) → is_open j m' ≡ is_open j m
    delivered : (j : ℕ) → received j m' ≡ (if member j cs then v ∷ received j m else received j m)

  send-Sent :
      (ch : ℕ) (v : V) (m : Channels V)
      → is_open ch m ≡ true
      → (m' : Channels V) × (send ch v m ≡ some m') × Sent v (ch ∷ []) m m'
  unfolding send
  send-Sent ch v m h = elim (Option-cases (lookup ch m)) [
    | inl absent ↦ absurd (ground arith)
    | inr (c, here) ↦ (
      insert ch (record c { sent = v ∷ c.sent }) m,
      ground arith,
      record {
        same_open = λ j. ground (
          arith,
          here,
          nat_eq.beq_iff ch j,
          lookup-insert ch j (record c { sent = v ∷ c.sent }) m,
        );
        delivered = λ j. ground (
          arith,
          here,
          nat_eq.beq_iff ch j,
          lookup-insert ch j (record c { sent = v ∷ c.sent }) m,
        );
      },
    )
  ]

  send_all-Sent :
      (v : V) (cs : List ℕ) (m : Channels V)
      → IsDistinct cs
      → ((j : ℕ) → member j cs ≡ true → is_open j m ≡ true)
      → (m' : Channels V) × (send_all v cs m ≡ some m') × Sent v cs m m'
  unfolding send_all
  send_all-Sent v [] m d h = (m, refl, record { same_open = λ j. refl; delivered = λ j. refl })
  send_all-Sent v (c ∷ cs) m d h =
      let (m1, sent, first) = send-Sent c v m (h c (ground (arith, nat_eq.beq_iff c c))) in
      let (m2, rest, others) =
        send_all-Sent v cs m1 d.1 (λ j k. first.same_open j ∙ h j (ground arith)) in
      (
        m2,
        ground (arith, sent, rest),
        record {
          same_open = λ j. others.same_open j ∙ first.same_open j;
          delivered =
              λ j. ground (arith, others.delivered j, first.delivered j, nat_eq.beq_iff c j, d.0);
        },
      )

  pub record Closed (cs : List ℕ) (m m' : Channels V) : Type 0 where
    pub now_open : (j : ℕ) → is_open j m' ≡ (if member j cs then false else is_open j m)
    pub same_sent : (j : ℕ) → received j m' ≡ received j m

  close-Closed :
      (ch : ℕ) (m : Channels V)
      → is_open ch m ≡ true
      → (m' : Channels V) × (close_channel ch m ≡ some m') × Closed (ch ∷ []) m m'
  unfolding close_channel
  close-Closed ch m h = elim (Option-cases (lookup ch m)) [
    | inl absent ↦ absurd (ground arith)
    | inr (c, here) ↦ (
      insert ch (record c { closed = true }) m,
      ground arith,
      record {
        now_open = λ j.
            ground
              (arith, here, nat_eq.beq_iff ch j, lookup-insert ch j (record c { closed = true }) m);
        same_sent = λ j.
            ground
              (arith, here, nat_eq.beq_iff ch j, lookup-insert ch j (record c { closed = true }) m);
      },
    )
  ]

  pub close_all-Closed :
      (cs : List ℕ) (m : Channels V)
      → IsDistinct cs
      → ((j : ℕ) → member j cs ≡ true → is_open j m ≡ true)
      → (m' : Channels V) × (close_all cs m ≡ some m') × Closed cs m m'
  unfolding close_all
  close_all-Closed [] m d h = (m, refl, record { now_open = λ j. refl; same_sent = λ j. refl })
  close_all-Closed (c ∷ cs) m d h =
      let (m1, ended, first) = close-Closed c m (h c (ground (arith, nat_eq.beq_iff c c))) in
      let (m2, rest, others) =
        close_all-Closed cs m1 d.1
          (λ j k. ground (arith, first.now_open j, h j, nat_eq.beq_iff c j, d.0, k)) in
      (
        m2,
        ground (arith, ended, rest),
        record {
          now_open = λ j. ground (arith, others.now_open j, first.now_open j);
          same_sent = λ j. others.same_sent j ∙ first.same_sent j;
        },
      )

  -- What DeleteFunc leaves of the subscribers and the channels.
  pub record Deleted (ch : ℕ) (cs cs' : List ℕ) (m m' : Channels V) : Type 0 where
    pub left : (j : ℕ) → member j cs' ≡ (member j cs && not (ch == j))
    pub distinct : IsDistinct cs'
    pub open_left : (j : ℕ) → is_open j m' ≡ (if ch == j && member j cs then false else is_open j m)
    pub same_received : (j : ℕ) → received j m' ≡ received j m

  pub delete_func-Deleted :
      (ch : ℕ) (cs : List ℕ) (m : Channels V)
      → IsDistinct cs
      → ((j : ℕ) → member j cs ≡ true → is_open j m ≡ true)
      → (r : List ℕ × Channels V) × (delete_func ch cs m ≡ some r) × Deleted ch cs r.0 m r.1
  unfolding delete_func
  delete_func-Deleted ch [] m d h = (
    ([], m),
    refl,
    record {
      left = λ j. refl;
      distinct = tt;
      open_left = λ j. ground arith;
      same_received = λ j. refl;
    },
  )
  delete_func-Deleted ch (c ∷ cs) m d h = elim (Bool-cases (c == ch)) [
    | inl same ↦
        let (m1, ended, first) = close-Closed c m (h c (ground (arith, nat_eq.beq_iff c c))) in
        let (r, rest, others) =
          delete_func-Deleted ch cs m1 d.1
            (λ j k. ground (arith, first.now_open j, h j, nat_eq.beq_iff c j, d.0, k)) in
        (
          r,
          ground (arith, same, ended, rest),
          record {
            left = λ j. ground (
              arith,
              others.left j,
              nat_eq.beq_iff c ch,
              nat_eq.beq_iff c j,
              nat_eq.beq_iff ch j,
            );
            distinct = others.distinct;
            open_left = λ j. ground (
              arith,
              others.open_left j,
              first.now_open j,
              nat_eq.beq_iff c ch,
              nat_eq.beq_iff c j,
              nat_eq.beq_iff ch j,
            );
            same_received = λ j. others.same_received j ∙ first.same_sent j;
          },
        )
    | inr other ↦
        let (r, rest, others) = delete_func-Deleted ch cs m d.1 (λ j k. h j (ground arith)) in
        (
          (c ∷ r.0, r.1),
          ground (arith, other, rest),
          record {
            left = λ j. ground (
              arith,
              others.left j,
              nat_eq.beq_iff c ch,
              nat_eq.beq_iff c j,
              nat_eq.beq_iff ch j,
            );
            distinct = (ground (arith, others.left c, d.0), others.distinct);
            open_left = λ j. ground (
              arith,
              others.open_left j,
              nat_eq.beq_iff c ch,
              nat_eq.beq_iff c j,
              nat_eq.beq_iff ch j,
            );
            same_received = others.same_received;
          },
        )
  ]

  -- The subscribers are different channels, all open, and were made.
  pub record IsValid (b : Broadcaster V) : Type 0 where
    pub distinct : IsDistinct b.subscribers
    pub all_open : (j : ℕ) → member j b.subscribers ≡ true → is_open j b.channels ≡ true
    pub all_made : (j : ℕ) → member j b.subscribers ≡ true → j < b.made

  -- A Broadcast to valid subscribers does not panic: the value reaches each subscriber once, and
  -- nobody else, and the subscribers stay.
  pub broadcast_lem :
      (v : V) (b : Broadcaster V)
      → IsValid b
      → (b' : Broadcaster V) × (broadcast v b ≡ some b')
        × IsValid b'
        × (b'.subscribers ≡ b.subscribers)
        × ((j : ℕ)
            → received j b'.channels ≡ (
                if member j b.subscribers
                then v ∷ received j b.channels
                else received j b.channels))
  unfolding broadcast
  broadcast_lem v b h =
      let (m, sent, all) = send_all-Sent v b.subscribers b.channels h.distinct h.all_open in
      (
        record b { channels = m },
        ground (arith, sent),
        record {
          distinct = h.distinct;
          all_open = λ j k. all.same_open j ∙ h.all_open j k;
          all_made = h.all_made;
        },
        refl,
        all.delivered,
      )
