-- ===== src/Migration/Measured.antt =====
-- What a migrator leaves in its tracker: measurements, invocations, and when they are complete.
use go_server_sdk.Prelude.{
  ℕ, string_eq, Bool, true, false, ◌&&◌, ◌||◌, Option, none, some, is_some, ◌≡◌, ◌≢◌, refl, sym,
  ◌∙◌, ap, arith, has_key, size, insert, [], has_key-insert, if◌then◌else◌,
}
use go_server_sdk.Migration.Tracker.{
  Origin, old, new, other_origin, origin_eq, TrackerModel, OpTracker, track_invoked, track_error,
  track_latency, track_consistency,
}
use go_server_sdk.Migration.Migrator.{
  MigrationExecutor, MigrationResult, Client, Run, exec, is_error, compared,
}
use go_server_sdk.Migration.Building.{Complete, is_named}

module _ (m : TrackerModel) where
  -- A tracker for which an operation is set, and nothing is recorded yet.
  pub record Fresh (t : OpTracker m) : Type 0 where
    pub named : t.key ≢ ""
    pub has_op : is_some t.op ≡ true
    pub valid_context : m.context_error t.context ≡ none
    pub none_invoked : t.invoked ≡ []
    pub no_latency : t.latency_ms ≡ []
    pub no_errors : t.errors ≡ []
    pub no_check : t.consistency_check ≡ none

  -- What the executors leave in the tracker `t` of a fresh tracker: measurements of the origins that
  -- ran (`o` the old one, `n` the new one), and no invocation yet.
  pub record Measured (o n : Bool) (t : OpTracker m) : Type 0 where
    pub named : t.key ≢ ""
    pub has_op : is_some t.op ≡ true
    pub valid_context : m.context_error t.context ≡ none
    pub old_latency : has_key old t.latency_ms ≡ true → o ≡ true
    pub new_latency : has_key new t.latency_ms ≡ true → n ≡ true
    pub old_error : has_key old t.errors ≡ true → o ≡ true
    pub new_error : has_key new t.errors ≡ true → n ≡ true

  abbrev pub is_old : Origin → Bool
  is_old old = true
  is_old _ = false

  abbrev pub is_new : Origin → Bool
  is_new new = true
  is_new _ = false

  pub Fresh-Measured : {t : OpTracker m} → Fresh t → Measured false false t
  unfolding has_key
  Fresh-Measured f = ground arith

  pub every-Measured : {t : OpTracker m} {o n : Bool} → Measured o n t → Measured true true t
  every-Measured h = ground arith

  pub latency-Measured :
      (x : Origin) (ms : ℕ) (t : OpTracker m) {o n : Bool}
      → Measured o n t
      → Measured (is_old x || o) (is_new x || n) (track_latency m x ms t)
  unfolding track_latency
  latency-Measured old ms t h =
      ground (arith, has_key-insert old old ms t.latency_ms, has_key-insert old new ms t.latency_ms)
  latency-Measured new ms t h =
      ground (arith, has_key-insert new old ms t.latency_ms, has_key-insert new new ms t.latency_ms)
  latency-Measured (other_origin s) ms t h =
      let x = other_origin s in
      ground (arith, has_key-insert x old ms t.latency_ms, has_key-insert x new ms t.latency_ms)

  pub error-Measured :
      (x : Origin) (t : OpTracker m) {o n : Bool}
      → Measured o n t
      → Measured (is_old x || o) (is_new x || n) (track_error m x t)
  unfolding track_error
  error-Measured old t h =
      ground (arith, has_key-insert old old tt t.errors, has_key-insert old new tt t.errors)
  error-Measured new t h =
      ground (arith, has_key-insert new old tt t.errors, has_key-insert new new tt t.errors)
  error-Measured (other_origin s) t h =
      let x = other_origin s in
      ground (arith, has_key-insert x old tt t.errors, has_key-insert x new tt t.errors)

  pub weaken-Measured :
      (x : Origin) {t : OpTracker m} {o n : Bool}
      → Measured o n t
      → Measured (is_old x || o) (is_new x || n) t
  weaken-Measured old h = ground arith
  weaken-Measured new h = ground arith
  weaken-Measured (other_origin s) h = ground arith

  pub twice-Measured :
      (x : Origin) {t : OpTracker m} (o n : Bool)
      → Measured (is_old x || (is_old x || o)) (is_new x || (is_new x || n)) t
      → Measured (is_old x || o) (is_new x || n) t
  twice-Measured old o n h = ground arith
  twice-Measured new o n h = ground arith
  twice-Measured (other_origin s) o n h = ground arith

  pub timed-Measured :
      (x : Origin) (ms : ℕ) (timed : Bool) (t : OpTracker m) {o n : Bool}
      → Measured o n t
      → Measured (is_old x || o) (is_new x || n) (if timed then track_latency m x ms t else t)
  timed-Measured x ms true t h = latency-Measured x ms t h
  timed-Measured x ms false t h = weaken-Measured x h

  pub failed-Measured :
      (x : Origin) (is_err : Bool) (t : OpTracker m) (o n : Bool)
      → Measured (is_old x || o) (is_new x || n) t
      → Measured (is_old x || o) (is_new x || n) (if is_err then track_error m x t else t)
  failed-Measured x true t o n h = twice-Measured x o n (error-Measured x t h)
  failed-Measured x false t o n h = h

  -- What the tracker holds besides the measurements is as it was.
  pub record SameInvoked (t t' : OpTracker m) : Type 0 where
    pub invoked : t'.invoked ≡ t.invoked
    pub check : t'.consistency_check ≡ t.consistency_check

  module _ {P V W : Type 0} (client : Client m W) where
    pub exec-Measured :
        (e : MigrationExecutor P V W) (r : Run m W) {o n : Bool}
        → Measured o n r.tracker
        → Measured (is_old e.origin || o) (is_new e.origin || n) (exec m client e r).1.tracker
    unfolding exec
    exec-Measured e r {o} {n} h =
        failed-Measured e.origin (e.measure_errors && is_error (e.impl e.payload r.world).0) _ o n
          (timed-Measured e.origin _ e.measure_latency r.tracker h)

    pub exec-SameInvoked :
        (e : MigrationExecutor P V W) (r : Run m W)
        → SameInvoked r.tracker (exec m client e r).1.tracker
    unfolding exec track_error track_latency
    exec-SameInvoked e r = ground arith

  pub on_old : (x : Origin) → (is_old x || false) ≡ true → has_key old (insert x tt []) ≡ true
  unfolding has_key insert
  on_old old h = refl
  on_old new h = cc
  on_old (other_origin s) h = cc

  pub on_new : (x : Origin) → (is_new x || false) ≡ true → has_key new (insert x tt []) ≡ true
  unfolding has_key insert
  on_new old h = cc
  on_new new h = refl
  on_new (other_origin s) h = cc

  pub single-Complete :
      (x : Origin) (t : OpTracker m)
      → Measured (is_old x || false) (is_new x || false) t
      → t.invoked ≡ []
      → t.consistency_check ≡ none
      → Complete m (track_invoked m x t)
  unfolding track_invoked insert
  single-Complete x t h i c = record {
    named = h.named;
    has_op = h.has_op;
    valid_context = h.valid_context;
    some_invoked = rw i (omega arith);
    latency_invoked = latency;
    error_invoked = errors;
    both_compared = λ k. cc (sym k ∙ ap is_some c);
  }
    where
      latency :
          (o : Origin)
          → is_named o ≡ true
          → has_key o t.latency_ms ≡ true
          → has_key o (insert x tt t.invoked) ≡ true
      latency old e k = rw i (on_old x (h.old_latency k))
      latency new e k = rw i (on_new x (h.new_latency k))
      latency (other_origin s) e k = cc

      errors :
          (o : Origin)
          → is_named o ≡ true
          → has_key o t.errors ≡ true
          → has_key o (insert x tt t.invoked) ≡ true
      errors old e k = rw i (on_old x (h.old_error k))
      errors new e k = rw i (on_new x (h.new_error k))
      errors (other_origin s) e k = cc

  -- A tracker with both named origins invoked is complete, whatever was measured.
  pub all-Complete :
      (t : OpTracker m) {o n : Bool}
      → Measured o n t
      → ((x : Origin) → is_named x ≡ true → has_key x t.invoked ≡ true)
      → size t.invoked ≡ 2
      → Complete m t
  all-Complete t h all two = record {
    named = h.named;
    has_op = h.has_op;
    valid_context = h.valid_context;
    some_invoked = omega arith;
    latency_invoked = λ x e _. all x e;
    error_invoked = λ x e _. all x e;
    both_compared = λ _. two;
  }

  pub invoked-Measured :
      (x : Origin) {t : OpTracker m} {o n : Bool}
      → Measured o n t
      → Measured o n (track_invoked m x t)
  unfolding track_invoked
  invoked-Measured x h = ground arith

  -- Two different origins invoked, from none.
  pub pair-Complete :
      (x y : Origin) (t : OpTracker m) {o n : Bool}
      → x ≢ y
      → is_named x ≡ true
      → is_named y ≡ true
      → Measured o n t
      → t.invoked ≡ insert x tt []
      → Complete m (track_invoked m y t)
  unfolding track_invoked has_key insert
  pair-Complete old old t d p q h i = absurd (d refl)
  pair-Complete new new t d p q h i = absurd (d refl)
  pair-Complete (other_origin s) y t d p q h i = cc
  pair-Complete old (other_origin s) t d p q h i = cc
  pair-Complete new (other_origin s) t d p q h i = cc
  pair-Complete old new t d p q h i =
      all-Complete _ (invoked-Measured new h) (λ z e. rw i (both z e)) (rw i refl)
    where
      both : (z : Origin) → is_named z ≡ true → has_key z (insert new tt (insert old tt [])) ≡ true
      both old e = refl
      both new e = refl
      both (other_origin s) e = cc
  pair-Complete new old t d p q h i =
      all-Complete _ (invoked-Measured old h) (λ z e. rw i (both z e)) (rw i refl)
    where
      both : (z : Origin) → is_named z ≡ true → has_key z (insert old tt (insert new tt [])) ≡ true
      both old e = refl
      both new e = refl
      both (other_origin s) e = cc

  pub compared-Measured :
      {V : Type 0} (c : Option (Option V → Option V → Bool)) (a b : MigrationResult V)
      (t : OpTracker m) {o n : Bool}
      → Measured o n t
      → Measured o n (compared m c a b t)
  unfolding track_consistency
  compared-Measured none a b t h = h
  compared-Measured (some f) a b t h = ground arith

  pub compared-invoked :
      {V : Type 0} (c : Option (Option V → Option V → Bool)) (a b : MigrationResult V)
      (t : OpTracker m)
      → (compared m c a b t).invoked ≡ t.invoked
  unfolding track_consistency
  compared-invoked none a b t = refl
  compared-invoked (some f) a b t = ground arith
