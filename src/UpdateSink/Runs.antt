-- ===== src/UpdateSink/Runs.antt =====
-- Sequences of calls of UpdateStatus.
use go_server_sdk.Prelude.{
  ℕ, string_eq, nat_eq, Bool, false, not, ◌&&◌, ◌||◌, Option, none, some, List, [], ◌∷◌, ◌==◌,
  or_else, if◌then◌else◌, ◌≡◌, arith, refl, sym, ◌∙◌, subst, Bool-cases, inl, inr, first_some,
}
use go_server_sdk.UpdateSink.Status.{
  DataSourceState, DataSourceErrorInfo, DataSourceStatus, Statuses, initializing, interrupted,
  effective_state, maybe_update_status, broadcast_status, update_status,
}

-- A call of UpdateStatus, with the time at which it is made.
pub record Call : Type 0 where
  pub now : ℕ
  pub state : DataSourceState
  pub error : DataSourceErrorInfo

abbrev pub run : List Call → Statuses → Statuses
run [] d = d
run (c ∷ cs) d = run cs (update_status c.now c.state c.error d)

-- The last error that calls report; a call with the empty state reports nothing.
abbrev pub last_reported : List Call → Option DataSourceErrorInfo
last_reported [] = none
last_reported (c ∷ cs) =
    first_some (last_reported cs)
      (if c.state == "" || c.error.kind == "" then none else some c.error)

-- A state that takes the data source out of its initial one.
abbrev pub leaves_initializing : DataSourceState → Bool
leaves_initializing s = not (s == "") && not (s == initializing) && not (s == interrupted)

abbrev pub any_leaves : List Call → Bool
any_leaves [] = false
any_leaves (c ∷ cs) = leaves_initializing c.state || any_leaves cs

pub update_status-state :
    (now : ℕ) (s : DataSourceState) (e : DataSourceErrorInfo) (d : Statuses)
    → (update_status now s e d).current_status.state
      ≡ (if s == "" then d.current_status.state else effective_state s d.current_status.state)
unfolding update_status maybe_update_status broadcast_status effective_state
update_status-state now s e d =
    ground
      (arith, string_eq.beq_iff (effective_state s d.current_status.state) d.current_status.state)

pub update_status-last_error :
    (now : ℕ) (s : DataSourceState) (e : DataSourceErrorInfo) (d : Statuses)
    → (update_status now s e d).current_status.last_error
      ≡ (if s == "" || e.kind == "" then d.current_status.last_error else e)
unfolding update_status maybe_update_status broadcast_status effective_state
update_status-last_error now s e d = ground arith

-- After any calls, the last error is the last one that a call with a state reported, or the one from
-- before if there is none.
pub run-last_error :
    (cs : List Call) (d : Statuses)
    → (run cs d).current_status.last_error ≡ or_else (last_reported cs) d.current_status.last_error
run-last_error [] d = refl
run-last_error (c ∷ cs) d =
    run-last_error cs _ ∙ ground (arith, update_status-last_error c.now c.state c.error d)

-- A data source that is initializing goes on doing so until a call gives another state than that one
-- and INTERRUPTED.
pub run-initializing :
    (cs : List Call) (d : Statuses)
    → d.current_status.state ≡ initializing
    → any_leaves cs ≡ false
    → (run cs d).current_status.state ≡ initializing
unfolding effective_state
run-initializing [] d h k = h
run-initializing (c ∷ cs) d h k =
    run-initializing cs (update_status c.now c.state c.error d)
      (update_status-state c.now c.state c.error d
        ∙ ground (
          arith,
          h,
          k,
          string_eq.beq_iff c.state "",
          string_eq.beq_iff c.state initializing,
          string_eq.beq_iff c.state interrupted,
          string_eq.beq_iff d.current_status.state initializing,
        ))
      (ground (arith, k))

-- Two statuses that follow each other.
abbrev Follows : DataSourceStatus → DataSourceStatus → Type 0
Follows s r = s.state ≡ r.state → s.state_since ≡ r.state_since

abbrev Chain : DataSourceStatus → List DataSourceStatus → Type 0
Chain s [] = Unit
Chain s (r ∷ rs) = Follows s r × Chain r rs

abbrev IsHistory : DataSourceStatus → List DataSourceStatus → Type 0
IsHistory current [] = Unit
IsHistory current (e ∷ es) = (e ≡ current) × Chain e es

-- The listeners know the current status, if they have been told one, and have been told a new time
-- with each new state only.
abbrev pub IsAnnounced : Statuses → Type 0
IsAnnounced d = IsHistory d.current_status d.status_events

IsHistory-cons :
    (s r : DataSourceStatus) (es : List DataSourceStatus)
    → Follows s r
    → IsHistory r es
    → IsHistory s (s ∷ es)
IsHistory-cons s r [] f h = (refl, tt)
IsHistory-cons s r (e ∷ es) f h = (refl, (subst (λ x. Follows s x) (sym h.0) f, h.1))

broadcast-IsAnnounced :
    (now : ℕ) (s : DataSourceState) (e : DataSourceErrorInfo) (d : Statuses)
    → IsAnnounced d
    → IsAnnounced (broadcast_status (maybe_update_status now s e d))
unfolding maybe_update_status broadcast_status
broadcast-IsAnnounced now s e d h =
    elim (Bool-cases
      (effective_state s d.current_status.state == d.current_status.state && e.kind == "")) [
        | inl same ↦ rw same h
        | inr changed ↦ rw changed (
            IsHistory-cons _ d.current_status d.status_events
              (λ p. ground (
                arith,
                string_eq.beq_iff (effective_state s d.current_status.state) d.current_status.state,
                p,
              ))
              h)
      ]

update_status-IsAnnounced :
    (now : ℕ) (s : DataSourceState) (e : DataSourceErrorInfo) (d : Statuses)
    → IsAnnounced d
    → IsAnnounced (update_status now s e d)
unfolding update_status
update_status-IsAnnounced now s e d h = elim (Bool-cases (s == "")) [
  | inl empty ↦ rw empty h
  | inr given ↦ rw given (broadcast-IsAnnounced now s e d h)
]

-- Through any calls the status that was broadcast last is the current one, and of two statuses that
-- are broadcast one after the other with the same state the second has kept the first one's time.
pub run-IsAnnounced : (cs : List Call) (d : Statuses) → IsAnnounced d → IsAnnounced (run cs d)
run-IsAnnounced [] d h = h
run-IsAnnounced (c ∷ cs) d h =
    run-IsAnnounced cs _ (update_status-IsAnnounced c.now c.state c.error d h)
