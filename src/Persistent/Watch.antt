-- ===== src/Persistent/Watch.antt =====
-- The goroutine of internal/datastore/data_store_status_poller.go that polls an unavailable store.
use go_server_sdk.Prelude.{
  ℕ, suc, Bool, true, false, ◌&&◌, Option, none, some, List, [], ◌∷◌, ◌==◌, nat_eq, member,
  if◌then◌else◌, if-elim, ◌≡◌, refl, sym, ap, ◌∙◌, ◌⊎◌, inl, inr, arith, Bool-cases,
}
use go_server_sdk.Persistent.Poller.{
  DataStoreStatus, same_bool, same_status, DataStoreUpdateSink, update_status, Poller,
  new_data_store_status_poller, start_status_poller, update_availability, close_poller, without,
  returns, stop_polling,
}

-- At most one goroutine polls; none does while the store is available; one does while it is not, until
-- Close, and Close would close its channel.
pub record IsWatched (m : Poller) : Type 0 where
  pub single : (m.running ≡ []) ⊎ ((c : ℕ) × (m.running ≡ c ∷ []))
  pub idle : m.last_available ≡ true → m.running ≡ []
  pub polled :
      m.last_available ≡ false
      → m.close_called ≡ false
      → (c : ℕ) × ((m.running ≡ c ∷ []) × (m.poll_closer ≡ some c))
  pub none_closed : m.close_called ≡ false → m.closed ≡ []

pub new_data_store_status_poller-IsWatched :
    (updates : DataStoreUpdateSink) (refresh : Bool)
    → IsWatched (new_data_store_status_poller true updates refresh)
unfolding new_data_store_status_poller
new_data_store_status_poller-IsWatched updates refresh = record {
  single = inl refl;
  idle = λ h. refl;
  polled = λ h k. cc h;
  none_closed = λ h. refl;
}

pub update_availability_same :
    (b : Bool) (m : Poller) → m.last_available ≡ b → update_availability b m ≡ m
unfolding update_availability
update_availability_same true m h = ground (arith, h)
update_availability_same false m h = ground (arith, h)

-- A report of an outage.
pub outage-IsWatched : (m : Poller) → IsWatched m → IsWatched (update_availability false m)
unfolding update_availability start_status_poller
outage-IsWatched m h =
    if-elim IsWatched (same_bool false m.last_available) m
      (record m {
        last_available = false;
        updates = update_status (record { available = false; needs_refresh = false }) m.updates;
        poll_closer = some m.started;
        started = suc m.started;
        running = m.started ∷ m.running;
      })
      (λ t. h)
      (λ f.
        (let empty = h.idle (ground (arith, Bool-cases (m.last_available))) in
          record {
            single = inr (m.started, ap (λ r. m.started ∷ r) empty);
            idle = λ a. cc a;
            polled = λ a b. (m.started, (ap (λ r. m.started ∷ r) empty, refl));
            none_closed = h.none_closed;
          }))

without_self : (c : ℕ) → without c (c ∷ []) ≡ []
without_self c = ground (arith, nat_eq.beq_iff c c)

without_single :
    (c : ℕ) (cs : List ℕ)
    → (cs ≡ []) ⊎ ((d : ℕ) × (cs ≡ d ∷ []))
    → (without c cs ≡ []) ⊎ ((d : ℕ) × (without c cs ≡ d ∷ []))
without_single c cs (inl e) = inl (ap (without c) e)
without_single c cs (inr (d, e)) = elim (Bool-cases (d == c)) [
  | inl same ↦ inl (ap (without c) e ∙ ap (λ b. if b then [] else d ∷ []) same)
  | inr differ ↦ inr (d, ap (without c) e ∙ ap (λ b. if b then [] else d ∷ []) differ)
]

-- The end of the outage, which the polling goroutine `c` reports before it returns.
pub recovery-IsWatched :
    (c : ℕ) (m : Poller)
    → m.running ≡ c ∷ []
    → IsWatched m
    → IsWatched (returns c (update_availability true m))
unfolding update_availability
recovery-IsWatched c m r h =
    if-elim (λ p. IsWatched (returns c p)) (same_bool true m.last_available) m
      (record m {
        last_available = true;
        updates =
            update_status (record { available = true; needs_refresh = m.refresh_on_recovery })
              m.updates;
      })
      (λ t. cc (sym r ∙ h.idle t))
      (λ f. record {
        single = inl (ap (without c) r ∙ without_self c);
        idle = λ a. ap (without c) r ∙ without_self c;
        polled = λ a b. cc a;
        none_closed = h.none_closed;
      })

pub close_poller-IsWatched : (m : Poller) → IsWatched m → IsWatched (close_poller m)
unfolding close_poller
close_poller-IsWatched m h =
    if-elim IsWatched m.close_called m
      (elim m.poll_closer [
        | none ↦ record m { close_called = true }
        | some c ↦ record m { close_called = true; poll_closer = none; closed = c ∷ m.closed }
      ])
      (λ t. h) (λ f. closing m.poll_closer)
  where
    closing :
        (o : Option ℕ)
        → IsWatched (elim o [
          | none ↦ record m { close_called = true }
          | some c ↦ record m { close_called = true; poll_closer = none; closed = c ∷ m.closed }
        ])
    closing none = record {
      single = h.single;
      idle = h.idle;
      polled = λ a b. cc b;
      none_closed = λ b. cc b;
    }
    closing (some c) = record {
      single = h.single;
      idle = h.idle;
      polled = λ a b. cc b;
      none_closed = λ b. cc b;
    }

pub stop_polling-IsWatched : (c : ℕ) (m : Poller) → IsWatched m → IsWatched (stop_polling c m)
unfolding stop_polling
stop_polling-IsWatched c m h =
    if-elim IsWatched (member c m.running && member c m.closed) (returns c m) m
      (λ t.
        (let closing : m.close_called ≡ false → member c m.closed ≡ false =
            λ b. ap (member c) (h.none_closed b) in
          record {
            single = without_single c m.running h.single;
            idle = λ a. ap (without c) (h.idle a);
            polled = λ a b. ground (arith, t, closing b, Bool-cases (member c m.running));
            none_closed = h.none_closed;
          }))
      (λ f. h)

-- Where Close has not been called, it closes the channel of the goroutine that polls.
pub close_poller-closes :
    (m : Poller) (c : ℕ)
    → IsWatched m
    → m.close_called ≡ false
    → member c m.running ≡ true
    → member c (close_poller m).closed ≡ true
unfolding close_poller
close_poller-closes m c h k r = elim (Bool-cases m.last_available) [
  | inl a ↦ cc (sym r, ap (member c) (h.idle a))
  | inr a ↦ let (d, (e, closer)) = h.polled a k in ground (arith, k, closer, r, ap (member c) e)
]

-- A goroutine that polls is the only one, and the store is unavailable.
pub running_alone :
    (c : ℕ) (m : Poller)
    → IsWatched m
    → member c m.running ≡ true
    → (m.running ≡ c ∷ []) × (m.last_available ≡ false)
running_alone c m h r = (
  alone h.single,
  elim (Bool-cases m.last_available) [ inl a ↦ cc (sym r, ap (member c) (h.idle a)) | inr a ↦ a ],
)
  where
    alone : (m.running ≡ []) ⊎ ((d : ℕ) × (m.running ≡ d ∷ [])) → m.running ≡ c ∷ []
    alone (inl e) = cc (sym r, ap (member c) e)
    alone (inr (d, e)) =
        let same : d ≡ c = ground (arith, r, ap (member c) e, nat_eq.beq_iff d c) in
        e ∙ ap (λ x. x ∷ []) same

same_status_eq : (s t : DataStoreStatus) → same_status s t ≡ true → t ≡ s
same_status_eq s t h =
    ap (λ a. status a t.needs_refresh)
      (same s.available t.available
        (ground (arith, h, Bool-cases (same_bool s.available t.available))))
    ∙ ap (λ b. status s.available b)
        (same s.needs_refresh t.needs_refresh
          (ground (arith, h, Bool-cases (same_bool s.available t.available))))
  where
    status : Bool → Bool → DataStoreStatus
    status a b = record { available = a; needs_refresh = b }

    same : (a b : Bool) → same_bool a b ≡ true → b ≡ a
    same true b e = e
    same false true e = cc e
    same false false e = refl

-- The store counts as available, the status says so, with a refresh if the poller asks for one, and no
-- goroutine polls.
abbrev pub IsRecovered : Bool → Poller → Type 0
IsRecovered refresh m =
    (m.last_available ≡ true)
    × (m.updates.last_status ≡ record { available = true; needs_refresh = refresh })
    × (m.running ≡ [])

now_available : (m : Poller) → (update_availability true m).last_available ≡ true
unfolding update_availability
now_available m = ground (arith, Bool-cases m.last_available)

same_running : (m : Poller) → (update_availability true m).running ≡ m.running
unfolding update_availability
same_running m = ground (arith, Bool-cases m.last_available)

recovery_status :
    (c : ℕ) (m : Poller)
    → m.running ≡ c ∷ []
    → m.last_available ≡ false
    → (returns c (update_availability true m)).updates.last_status
      ≡ record { available = true; needs_refresh = m.refresh_on_recovery }
unfolding update_availability update_status
recovery_status c m r h =
    let new_status : DataStoreStatus = record {
      available = true;
      needs_refresh = m.refresh_on_recovery;
    } in
    let old = m.updates.last_status in
    let broadcast : DataStoreUpdateSink = record {
      last_status = new_status;
      broadcasts = new_status ∷ m.updates.broadcasts;
    } in
    if-elim (λ p. p.updates.last_status ≡ new_status) (same_bool true m.last_available) m
      (record m { last_available = true; updates = update_status new_status m.updates })
      (λ t. cc (t, h))
      (λ f.
        if-elim (λ d. d.last_status ≡ new_status) (same_status new_status old) m.updates broadcast
          (λ t. same_status_eq new_status old t) (λ f. refl))

pub recovery-IsRecovered :
    (c : ℕ) (m : Poller)
    → m.running ≡ c ∷ []
    → m.last_available ≡ false
    → IsRecovered m.refresh_on_recovery (returns c (update_availability true m))
recovery-IsRecovered c m r h =
    (now_available m, recovery_status c m r h, ap (without c) (same_running m ∙ r) ∙ without_self c)
