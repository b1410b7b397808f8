-- ===== src/Migration/Building.antt =====
-- When Build of migration_op_tracker.go returns an event.
use go_server_sdk.Prelude.{
  string_eq, Bool, true, false, refl, none, is_some, ◌≡◌, ◌≢◌, ◌↔◌, sym, ◌∙◌, ap, arith, has_key,
  size, Option-cases, inl, inr,
}
use go_server_sdk.Migration.Tracker.{
  Origin, old, new, other_origin, origin_eq, TrackerModel, OpTracker, build, built,
  check_consistency, event_of, MigrationOpEvent,
}

-- The two origins that the consistency check looks at. An origin is a string: the measurements of any other
-- one are not looked at.
abbrev pub is_named : Origin → Bool
is_named (other_origin _) = false
is_named _ = true

module _ (m : TrackerModel) where
  -- What Build asks of a tracker.
  pub record Complete (t : OpTracker m) : Type 0 where
    pub named : t.key ≢ ""
    pub has_op : is_some t.op ≡ true
    pub valid_context : m.context_error t.context ≡ none
    pub some_invoked : size t.invoked ≢ 0
    pub latency_invoked :
        (o : Origin)
        → is_named o ≡ true
        → has_key o t.latency_ms ≡ true
        → has_key o t.invoked ≡ true
    pub error_invoked :
        (o : Origin) → is_named o ≡ true → has_key o t.errors ≡ true → has_key o t.invoked ≡ true
    pub both_compared : is_some t.consistency_check ≡ true → size t.invoked ≡ 2

  check_consistency_ok : (t : OpTracker m) → Complete t → check_consistency m t ≡ none
  unfolding check_consistency
  check_consistency_ok t c = ground (
    arith,
    c.latency_invoked old refl,
    c.latency_invoked new refl,
    c.error_invoked old refl,
    c.error_invoked new refl,
  )

  check_consistency-Complete :
      (t : OpTracker m)
      → check_consistency m t ≡ none
      → ((o : Origin)
          → is_named o ≡ true
          → has_key o t.latency_ms ≡ true
          → has_key o t.invoked ≡ true)
        × ((o : Origin)
            → is_named o ≡ true
            → has_key o t.errors ≡ true
            → has_key o t.invoked ≡ true)
        × (is_some t.consistency_check ≡ true → size t.invoked ≡ 2)
  unfolding check_consistency
  check_consistency-Complete t h = (latency, errors, λ c. ground arith)
    where
      latency :
          (o : Origin)
          → is_named o ≡ true
          → has_key o t.latency_ms ≡ true
          → has_key o t.invoked ≡ true
      latency old n k = ground arith
      latency new n k = ground arith
      latency (other_origin s) n k = cc

      errors :
          (o : Origin) → is_named o ≡ true → has_key o t.errors ≡ true → has_key o t.invoked ≡ true
      errors old n k = ground arith
      errors new n k = ground arith
      errors (other_origin s) n k = cc

  -- Build returns an event exactly when the tracker is complete: it has a key, an operation, a valid context and
  -- an invocation, each measurement of the old or the new origin is of an invoked one, and a
  -- consistency check comes with two invocations. Measurements of any other origin do not matter.
  pub build_iff :
      (t : OpTracker m) → ((event : MigrationOpEvent m) × (build m t ≡ built event)) ↔ Complete t
  unfolding build
  build_iff t = (λ b. to b.0 b.1, from)
    where
      to : (event : MigrationOpEvent m) → build m t ≡ built event → Complete t
      to event b =
          let ok : check_consistency m t ≡ none = ground (arith, string_eq.beq_iff t.key "") in
          let (latency, errors, both) = check_consistency-Complete t ok in
          record {
            named = ground (arith, string_eq.beq_iff t.key "");
            has_op = ground arith;
            valid_context = ground arith;
            some_invoked = ground arith;
            latency_invoked = latency;
            error_invoked = errors;
            both_compared = both;
          }

      from : Complete t → (event : MigrationOpEvent m) × (build m t ≡ built event)
      from c = elim (Option-cases t.op) [
        | inl no_op ↦ cc (sym c.has_op ∙ ap is_some no_op)
        | inr (op, has) ↦ (
          event_of m op t,
          ground (
            arith,
            has,
            check_consistency_ok t c,
            string_eq.beq_iff t.key "",
            c.named,
            c.valid_context,
            c.some_invoked,
          ),
        )
      ]
